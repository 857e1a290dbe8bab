-- ===== src/Socket/Bytes.antt =====
-- `Buffer<u8>`: a vector with the bytes before `offset` read and those before `occupied` written.
use wayland_rs.Common.{
  ℕ, ◌+◌, ◌-◌, ◌≤◌, ◌≡◌, refl, sym, List, ◌++◌, append_assoc, arith, ltb, if◌then◌else◌, length,
  length-append, length-take, length-drop, length-replicate, take, drop, replicate, take-append_at,
  Bool-cases, inl, inr, drop-drop, drop-append_left, empty_of_length, le_of_ltb,
}

pub record Buffer : Type 0 where
  pub storage : List ℕ
  pub occupied : ℕ
  pub offset : ℕ

unfoldable pub new_buffer : ℕ → Buffer
new_buffer size = record { storage = replicate size 0; occupied = 0; offset = 0 }

unfoldable pub advance : Buffer → ℕ → Buffer
advance b bytes = record b { occupied = b.occupied + bytes }

unfoldable pub advance_offset : Buffer → ℕ → Buffer
advance_offset b bytes = record b { offset = b.offset + bytes }

unfoldable pub clear : Buffer → Buffer
clear b = record b { occupied = 0; offset = 0 }

unfoldable pub get_contents : Buffer → List ℕ
get_contents b = drop b.offset (take b.occupied b.storage)

unfoldable pub get_writable_storage : Buffer → List ℕ
get_writable_storage b = drop b.occupied b.storage

-- The storage after its writable part has been written to.
unfoldable pub put_writable : Buffer → List ℕ → Buffer
put_writable b bytes = record b { storage = take b.occupied b.storage ++ bytes }

-- `copy_within(offset..occupied, 0)`, where there is something to copy.
unfoldable pub move_to_front : Buffer → Buffer
unfolding get_contents
move_to_front b = record {
  storage =
      if ltb b.offset b.occupied
      then get_contents b ++ drop (length (get_contents b)) b.storage
      else b.storage;
  occupied = b.occupied - b.offset;
  offset = 0;
}

-- The counters are in order and inside the storage, whose size never changes.
pub record IsValid (size : ℕ) (b : Buffer) : Type 0 where
  pub ordered : b.offset ≤ b.occupied
  pub inside : b.occupied ≤ size
  pub sized : length b.storage ≡ size

pub new_buffer-IsValid : (size : ℕ) → IsValid size (new_buffer size)
unfolding new_buffer
new_buffer-IsValid size = record {
  ordered = omega arith;
  inside = omega arith;
  sized = length-replicate size 0;
}

module _ (size : ℕ) (b : Buffer) (v : IsValid size b) where
  pub length-get_contents : length (get_contents b) ≡ b.occupied - b.offset
  unfolding get_contents
  length-get_contents = omega (
    arith,
    length-drop b.offset (take b.occupied b.storage),
    length-take b.occupied b.storage,
    v.sized,
    v.inside,
  )

  pub length-get_writable : length (get_writable_storage b) ≡ size - b.occupied
  unfolding get_writable_storage
  length-get_writable = omega (arith, length-drop b.occupied b.storage, v.sized)

  pub move_to_front-IsValid : IsValid size (move_to_front b)
  unfolding move_to_front
  move_to_front-IsValid = record {
    ordered = omega arith;
    inside = omega (arith, v.inside);
    sized = ground (
      arith,
      v.sized,
      v.inside,
      length-append (get_contents b) (drop (length (get_contents b)) b.storage),
      length-drop (length (get_contents b)) b.storage,
      length-get_contents,
    );
  }

  -- Moving the unread bytes to the front keeps them, and leaves all other room for writing.
  pub get_contents-move_to_front : get_contents (move_to_front b) ≡ get_contents b
  unfolding move_to_front get_contents
  get_contents-move_to_front = elim (Bool-cases (ltb b.offset b.occupied)) [
    | inl some_left ↦
        rw some_left
          (take-append_at (b.occupied - b.offset) (get_contents b) _ (sym length-get_contents))
    | inr none_left ↦
        let none : b.occupied - b.offset ≡ 0 =
          omega (arith, le_of_ltb b.offset b.occupied none_left) in
        rw (none_left, none, empty_of_length (get_contents b) (omega (arith, length-get_contents)))
  ]

  pub advance_offset-IsValid :
      (n : ℕ) → n ≤ length (get_contents b) → IsValid size (advance_offset b n)
  unfolding advance_offset
  advance_offset-IsValid n h = record {
    ordered = omega (arith, length-get_contents, v.ordered);
    inside = v.inside;
    sized = v.sized;
  }

  pub get_contents-advance_offset :
      (n : ℕ) → get_contents (advance_offset b n) ≡ drop n (get_contents b)
  unfolding advance_offset get_contents
  get_contents-advance_offset n =
      drop-drop b.offset n (b.offset + n) (take b.occupied b.storage) refl

  pub put_writable-IsValid :
      (bytes : List ℕ)
      → length bytes ≡ length (get_writable_storage b)
      → IsValid size (put_writable b bytes)
  unfolding put_writable
  put_writable-IsValid bytes h = record {
    ordered = v.ordered;
    inside = v.inside;
    sized = omega (
      arith,
      length-append (take b.occupied b.storage) bytes,
      length-take b.occupied b.storage,
      length-get_writable,
      v.sized,
      v.inside,
    );
  }

  -- What stands behind the occupied part is no part of the contents.
  pub get_contents-put_writable :
      (bytes : List ℕ) → get_contents (put_writable b bytes) ≡ get_contents b
  unfolding put_writable get_contents
  get_contents-put_writable bytes =
      rw
        (take-append_at b.occupied (take b.occupied b.storage) bytes
          (omega (arith, length-take b.occupied b.storage, v.sized, v.inside)))
        refl

  pub write-IsValid :
      (bytes : List ℕ) (n : ℕ)
      → length bytes ≡ length (get_writable_storage b)
      → n ≤ length bytes
      → IsValid size (advance (put_writable b bytes) n)
  unfolding advance put_writable
  write-IsValid bytes n h k = record {
    ordered = omega (arith, v.ordered);
    inside = omega (arith, length-get_writable, v.inside);
    sized = omega (
      arith,
      length-append (take b.occupied b.storage) bytes,
      length-take b.occupied b.storage,
      length-get_writable,
      v.sized,
      v.inside,
    );
  }

  -- Bytes written at the front of the writable storage, and then announced, join the contents.
  pub get_contents-write :
      (bytes tail : List ℕ)
      → get_contents (advance (put_writable b (bytes ++ tail)) (length bytes))
        ≡ get_contents b ++ bytes
  unfolding advance put_writable get_contents
  get_contents-write bytes tail =
      let filled : length (take b.occupied b.storage) ≡ b.occupied =
        omega (arith, length-take b.occupied b.storage, v.sized, v.inside) in
      rw
        (
          ← append_assoc (take b.occupied b.storage) bytes tail,
          take-append_at (b.occupied + length bytes) (take b.occupied b.storage ++ bytes) tail
              (omega (arith, length-append (take b.occupied b.storage) bytes)),
        )
        (drop-append_left b.offset (take b.occupied b.storage) bytes (omega (arith, v.ordered)))
