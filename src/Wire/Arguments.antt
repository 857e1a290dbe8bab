-- ===== src/Wire/Arguments.antt =====
-- `parse_args` reads back what `write_args` wrote.
use wayland_rs.Common.{
  ℕ, ◌+◌, ◌%◌, ◌^◌, ◌≤◌, ◌<◌, ◌≡◌, refl, ap, ◌∙◌, true, false, All, none, some, List, [], ◌∷◌, ◌++◌,
  append_assoc, arith, leb, if◌then◌else◌, length, length-append, ok, leb_iff, take-append_at,
  drop-append_at,
}
use wayland_rs.Common.Word.{
  Endian, IsU32, IsI32, to_ne_bytes, length-to_ne_bytes, split_u32, split_u32-to_ne_bytes, as_u32,
  as_i32-as_u32, as_u32_lt,
}
use wayland_rs.Protocol.{Argument, ArgumentType, is_fd}
use wayland_rs.Protocol.Signature.{HasType, Fits}
use wayland_rs.Wire.{
  Reader, next_multiple_of, from_bytes_with_nul, read_array_from_payload, parse_arg, parse_args,
  parse_word, in_payload, read_str, read_array, fd_count,
}
use wayland_rs.Wire.Encoding.{EncodesArray, Encodes, EncodesAll, fd_of, fds_of}

from_bytes_with_nul_lem :
    (s : List ℕ) → All (λ b. 0 < b) s → from_bytes_with_nul (s ++ 0 ∷ []) ≡ some s
unfolding from_bytes_with_nul
from_bytes_with_nul_lem [] h = refl
from_bytes_with_nul_lem (b ∷ []) h = ground arith
from_bytes_with_nul_lem (b ∷ c ∷ s) h = ground (arith, from_bytes_with_nul_lem (c ∷ s) h.1)

-- An argument that its Rust type can hold: numbers in range, no nul in a C string, and a length that
-- a u32 can say.
abbrev pub WellFormed : {Fd : Type 0} → Argument ℕ Fd → Type 0
WellFormed (Argument.int i) = IsI32 i
WellFormed (Argument.uint u) = IsU32 u
WellFormed (Argument.fixed f) = IsI32 f
WellFormed (Argument.str (some s)) = All (λ b. 0 < b) s
WellFormed (Argument.str none) = Unit {0}
WellFormed (Argument.object o) = IsU32 o
WellFormed (Argument.new_id n) = IsU32 n
WellFormed (Argument.array a) = Unit {0}
WellFormed (Argument.fd f) = Unit {0}

module _ (e : Endian) where
  length-EncodesArray : (a bs : List ℕ) → EncodesArray e a bs → length a + 4 ≤ length bs
  length-EncodesArray a bs enc = rw (enc.bytes) (
      omega (
        arith,
        length-append (to_ne_bytes e (length a % 2 ^ 32)) (a ++ enc.pad),
        length-append a enc.pad,
        length-to_ne_bytes e (length a % 2 ^ 32),
      ))

  split_word :
      (u : ℕ) (bs rest : List ℕ)
      → IsU32 u
      → bs ≡ to_ne_bytes e u
      → (leb 4 (length (bs ++ rest)) ≡ true) × (split_u32 e (bs ++ rest) ≡ (u, rest))
  split_word u bs rest h p = rw p (
    (leb_iff 4 _).1 (omega (arith, length-append (to_ne_bytes e u) rest, length-to_ne_bytes e u)),
    split_u32-to_ne_bytes e u rest h,
  )

  read-padded :
      (a pad rest : List ℕ)
      → length (a ++ pad) ≡ next_multiple_of (length a) 4
      → read_array_from_payload (length a) ((a ++ pad) ++ rest) ≡ ok (a, rest)
  unfolding read_array_from_payload
  read-padded a pad rest h = ground (
    arith,
    length-append (a ++ pad) rest,
    drop-append_at (next_multiple_of (length a) 4) (a ++ pad) rest,
    take-append_at (length a) a (pad ++ rest) refl,
    append_assoc a pad rest,
  )

  -- The array behind its length word.
  read-EncodesArray :
      (a bs rest : List ℕ)
      → EncodesArray e a bs
      → length bs < 2 ^ 32
      → (leb 4 (length (bs ++ rest)) ≡ true)
        × (front : ℕ) × (tail : List ℕ) × (split_u32 e (bs ++ rest) ≡ (front, tail))
        × (read_array_from_payload front tail ≡ ok (a, rest))
  read-EncodesArray a bs rest enc h =
      let small : length a < 2 ^ 32 = omega (arith, length-EncodesArray a bs enc) in
      let word : length a % 2 ^ 32 ≡ length a = omega arith in
      let shape : bs ++ rest ≡ to_ne_bytes e (length a) ++ ((a ++ enc.pad) ++ rest) =
        rw (enc.bytes, word) (append_assoc (to_ne_bytes e (length a)) (a ++ enc.pad) rest) in
      (
        (leb_iff 4 _).1 (omega (arith, length-EncodesArray a bs enc, length-append bs rest)),
        length a,
        (a ++ enc.pad) ++ rest,
        rw shape (split_u32-to_ne_bytes e (length a) _ small),
        read-padded a enc.pad rest enc.padded,
      )

read_str-some :
    {Fd : Type 0} (s a rest tail : List ℕ)
    → from_bytes_with_nul a ≡ some s
    → read_str {Fd = Fd} (ok (a, rest)) tail ≡ (rest, ok (Argument.str (some s)))
unfolding read_str
read_str-some s [] rest tail h = absurd (unfold from_bytes_with_nul in ground arith)
read_str-some s (b ∷ bs) rest tail h = rw (h, read_str)

module _ (e : Endian) {Fd : Type 0} where
  parse_word_arg :
      (t : ArgumentType) (payload : List ℕ) (front : ℕ) (tail : List ℕ) (fds : List Fd)
      → is_fd t ≡ false
      → leb 4 (length payload) ≡ true
      → split_u32 e payload ≡ (front, tail)
      → parse_arg e t (record { payload = payload; fds = fds })
        ≡ in_payload fds (parse_word t (front, tail))
  unfolding parse_arg
  parse_word_arg t payload front tail fds p q r = rw (p, q, r)

  pub parse_arg-Encodes :
      (a : Argument ℕ Fd) (t : ArgumentType) (bs rest : List ℕ) (fds : List Fd)
      → WellFormed a
      → HasType a t
      → Encodes e a bs
      → length bs < 2 ^ 32
      → parse_arg e t (record { payload = bs ++ rest; fds = fd_of a ++ fds })
        ≡ (record { payload = rest; fds = fds }, ok a)
  unfolding parse_word in_payload is_fd
  parse_arg-Encodes _ _ bs rest fds w (HasType.int {i}) enc h =
      let (p, q) = split_word e (as_u32 i) bs rest (as_u32_lt i) enc in
      parse_word_arg ArgumentType.int (bs ++ rest) (as_u32 i) rest fds refl p q
      ∙ rw (as_i32-as_u32 i w)
  parse_arg-Encodes _ _ bs rest fds w (HasType.uint {u}) enc h =
      let (p, q) = split_word e u bs rest w enc in
      parse_word_arg ArgumentType.uint (bs ++ rest) u rest fds refl p q
  parse_arg-Encodes _ _ bs rest fds w (HasType.fixed {f}) enc h =
      let (p, q) = split_word e (as_u32 f) bs rest (as_u32_lt f) enc in
      parse_word_arg ArgumentType.fixed (bs ++ rest) (as_u32 f) rest fds refl p q
      ∙ rw (as_i32-as_u32 f w)
  parse_arg-Encodes _ _ bs rest fds w (HasType.str {s = none} {n}) enc h =
      let (p, front, tail, q, r) = read-EncodesArray e [] bs rest enc h in
      parse_word_arg (ArgumentType.str n) (bs ++ rest) front tail fds refl p q ∙ rw (r, read_str)
  parse_arg-Encodes _ _ bs rest fds w (HasType.str {s = some s} {n}) enc h =
      let (p, front, tail, q, r) = read-EncodesArray e (s ++ 0 ∷ []) bs rest enc h in
      parse_word_arg (ArgumentType.str n) (bs ++ rest) front tail fds refl p q
      ∙ rw (r) (
          ap (in_payload fds)
            (read_str-some s (s ++ 0 ∷ []) rest tail (from_bytes_with_nul_lem s w)))
  parse_arg-Encodes _ _ bs rest fds w (HasType.object {o} {n}) enc h =
      let (p, q) = split_word e o bs rest w enc in
      parse_word_arg (ArgumentType.object n) (bs ++ rest) o rest fds refl p q
  parse_arg-Encodes _ _ bs rest fds w (HasType.new_id {o}) enc h =
      let (p, q) = split_word e o bs rest w enc in
      parse_word_arg ArgumentType.new_id (bs ++ rest) o rest fds refl p q
  parse_arg-Encodes _ _ bs rest fds w (HasType.array {a}) enc h =
      let (p, front, tail, q, r) = read-EncodesArray e a bs rest enc h in
      parse_word_arg ArgumentType.array (bs ++ rest) front tail fds refl p q ∙ rw (r, read_array)
  parse_arg-Encodes _ _ bs rest fds w (HasType.fd {f}) enc h = rw enc (unfold parse_arg in refl)

  parse_args_cons :
      (t : ArgumentType) (ts : List ArgumentType) (a : Argument ℕ Fd) (args : List (Argument ℕ Fd))
      → (r s u : Reader Fd) → parse_arg e t r ≡ (s, ok a)
      → parse_args e ts s ≡ (u, ok args)
      → parse_args e (t ∷ ts) r ≡ (u, ok (a ∷ args))
  unfolding parse_args
  parse_args_cons t ts a args r s u p q = ground arith

  -- The arguments come back, and what follows them in either buffer is left.
  pub parse_args-EncodesAll :
      (ts : List ArgumentType) (args : List (Argument ℕ Fd)) (bs rest : List ℕ) (fds : List Fd)
      → All WellFormed args
      → Fits ts args
      → EncodesAll e args bs
      → length bs < 2 ^ 32
      → parse_args e ts (record { payload = bs ++ rest; fds = fds_of args ++ fds })
        ≡ (record { payload = rest; fds = fds }, ok args)
  parse_args-EncodesAll [] [] bs rest fds w fit enc h = rw enc (unfold parse_args in refl)
  parse_args-EncodesAll [] (a ∷ args) bs rest fds w fit enc h = absurd fit
  parse_args-EncodesAll (t ∷ ts) [] bs rest fds w fit enc h = absurd fit
  parse_args-EncodesAll (t ∷ ts) (a ∷ args) bs rest fds w fit (b, c, p, enc, encs) h =
      let size : length b + length c < 2 ^ 32 = omega (arith, ap length p, length-append b c) in
      rw (p, append_assoc b c rest, append_assoc (fd_of a) (fds_of args) fds)
        (parse_args_cons t ts a args _ _ _
          (parse_arg-Encodes a t b (c ++ rest) (fds_of args ++ fds) w.0 fit.0 enc (omega arith))
          (parse_args-EncodesAll ts args c rest fds w.1 fit.1 encs (omega arith)))

is_fd-HasType :
    {Fd : Type 0} {a : Argument ℕ Fd} {t : ArgumentType}
    → HasType a t
    → (if is_fd t then 1 else 0) ≡ length (fd_of a)
unfolding is_fd
is_fd-HasType HasType.int = refl
is_fd-HasType HasType.uint = refl
is_fd-HasType HasType.fixed = refl
is_fd-HasType HasType.str = refl
is_fd-HasType HasType.object = refl
is_fd-HasType HasType.new_id = refl
is_fd-HasType HasType.array = refl
is_fd-HasType HasType.fd = refl

-- A message asks for as many descriptors as it carries.
pub fd_count-Fits :
    {Fd : Type 0} (ts : List ArgumentType) (args : List (Argument ℕ Fd))
    → Fits ts args
    → fd_count ts ≡ length (fds_of args)
unfolding fd_count
fd_count-Fits [] [] fit = refl
fd_count-Fits [] (a ∷ args) fit = absurd fit
fd_count-Fits (t ∷ ts) [] fit = absurd fit
fd_count-Fits (t ∷ ts) (a ∷ args) (h, fit) =
    omega (arith, fd_count-Fits ts args fit, length-append (fd_of a) (fds_of args), is_fd-HasType h)
