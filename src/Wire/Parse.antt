-- ===== src/Wire/Parse.antt =====
-- `parse_message` on any input, well formed or not.
use wayland_rs.Common.{
  ℕ, ◌+◌, ◌≤◌, ◌<◌, ◌≡◌, refl, sym, ap, ◌∙◌, Bool-cases, Option-cases, inl, inr, false, some, List,
  [], ◌∷◌, ◌++◌, append_assoc, arith, ltb, leb, if◌then◌else◌, length, length-append, take, drop,
  Result, ok, err, ltb-false, ltb-true, le_of_ltb,
}
use wayland_rs.Common.Word.{
  Endian, to_ne_bytes, split_u32, split_u32-to_ne_bytes, pack_header, pack_header_lt, header_len,
  header_len-pack, header_opcode,
}
use wayland_rs.Protocol.{AllowNull, Argument, ArgumentType, Message, is_fd}
use wayland_rs.Protocol.Signature.{HasType, Fits}
use wayland_rs.Wire.{
  Reader, MessageParseError, missing_data, parse_word, parse_fd, in_payload, read_str, read_array,
  read_array_from_payload, from_bytes_with_nul, parse_arg, parse_args, cons_arg, parse_message,
  parse_body, to_message, fd_count,
}
use wayland_rs.Wire.RoundTrip.{EncodesMessage, IsMessage, length-head, two_words}

-- The second word of the header.
abbrev pub word_of : Endian → List ℕ → ℕ
word_of e raw = (split_u32 e (split_u32 e raw).1).0

module _ {Fd : Type 0} where
  -- A result that names the argument gives its type.
  typed :
      (a b : Argument ℕ Fd) (t : ArgumentType) (rest tail : List ℕ)
      → ◌≡◌ {A = List ℕ × Result (Argument ℕ Fd) MessageParseError} (tail, ok b) (rest, ok a)
      → HasType b t
      → HasType a t
  typed a b t rest tail h ty = let p : a ≡ b = ground arith in rw p ty

  read_str-HasType :
      (n : AllowNull) (x : Result (List ℕ × List ℕ) MessageParseError) (tail rest : List ℕ)
      → (a : Argument ℕ Fd) → read_str x tail ≡ (rest, ok a)
      → HasType a (ArgumentType.str n)
  unfolding read_str
  read_str-HasType n (err x) tail rest a h = absurd (ground arith)
  read_str-HasType n (ok ([], r)) tail rest a h = typed a _ _ rest r h HasType.str
  read_str-HasType n (ok (b ∷ bs, r)) tail rest a h =
      elim (Option-cases (from_bytes_with_nul (b ∷ bs))) [
        | inl e ↦ absurd (ground arith)
        | inr (s, e) ↦ typed a (Argument.str (some s)) _ rest r (rw (e, read_str) at h) HasType.str
      ]

  read_array-HasType :
      (x : Result (List ℕ × List ℕ) MessageParseError) (tail rest : List ℕ) (a : Argument ℕ Fd)
      → read_array x tail ≡ (rest, ok a)
      → HasType a ArgumentType.array
  unfolding read_array
  read_array-HasType (err x) tail rest a h = absurd (ground arith)
  read_array-HasType (ok (v, r)) tail rest a h = typed a _ _ rest r h HasType.array

  parse_word-HasType :
      (t : ArgumentType) (front : ℕ) (tail rest : List ℕ) (a : Argument ℕ Fd)
      → parse_word t (front, tail) ≡ (rest, ok a)
      → HasType a t
  unfolding parse_word
  parse_word-HasType ArgumentType.int front tail rest a h = typed a _ _ rest tail h HasType.int
  parse_word-HasType ArgumentType.uint front tail rest a h = typed a _ _ rest tail h HasType.uint
  parse_word-HasType ArgumentType.fixed front tail rest a h = typed a _ _ rest tail h HasType.fixed
  parse_word-HasType (ArgumentType.str n) front tail rest a h =
      read_str-HasType n (read_array_from_payload front tail) tail rest a h
  parse_word-HasType (ArgumentType.object n) front tail rest a h =
      typed a _ _ rest tail h HasType.object
  parse_word-HasType ArgumentType.new_id front tail rest a h =
      typed a _ _ rest tail h HasType.new_id
  parse_word-HasType ArgumentType.array front tail rest a h =
      read_array-HasType (read_array_from_payload front tail) tail rest a h
  parse_word-HasType ArgumentType.fd front tail rest a h = absurd (ground arith)

  parse_fd-HasType :
      (fds : List Fd) (payload : List ℕ) (s : Reader Fd) (a : Argument ℕ Fd)
      → parse_fd fds payload ≡ (s, ok a)
      → HasType a ArgumentType.fd × (f : Fd) × (fds ≡ f ∷ s.fds)
  unfolding parse_fd
  parse_fd-HasType [] payload s a h = absurd (ground arith)
  parse_fd-HasType (f ∷ fds) payload s a h =
      let p : a ≡ Argument.fd f = ground arith in (rw p HasType.fd, f, ground arith)

  in_payload_ok :
      (fds : List Fd) (x : List ℕ × Result (Argument ℕ Fd) MessageParseError) (s : Reader Fd)
      → (a : Argument ℕ Fd) → in_payload fds x ≡ (s, ok a)
      → (x ≡ (s.payload, ok a)) × (fds ≡ s.fds)
  unfolding in_payload
  in_payload_ok fds (payload, r) s a h = (ground arith, ground arith)

  cons_arg_ok :
      (a : Argument ℕ Fd) (y : Reader Fd × Result (List (Argument ℕ Fd)) MessageParseError)
      → (s : Reader Fd) (xs : List (Argument ℕ Fd)) → cons_arg a y ≡ (s, ok xs)
      → (args : List (Argument ℕ Fd)) × (y ≡ (s, ok args)) × (xs ≡ a ∷ args)
  unfolding cons_arg
  cons_arg_ok a (r, ok args) s xs h = (args, ground arith, ground arith)
  cons_arg_ok a (r, err x) s xs h = absurd (ground arith)

module _ (e : Endian) {Fd : Type 0} where
  word_sound :
      (t : ArgumentType) (r s : Reader Fd) (a : Argument ℕ Fd)
      → is_fd t ≡ false
      → parse_arg e t r ≡ (s, ok a)
      → HasType a t × (r.fds ≡ s.fds)
  unfolding parse_arg
  word_sound t r s a p h = elim (Bool-cases (leb 4 (length r.payload))) [
    | inl enough ↦
        let (q, same) = in_payload_ok r.fds _ s a (rw (p, enough) at h) in
        (parse_word-HasType t _ _ _ a q, same)
    | inr short ↦ absurd (ground arith)
  ]

  -- A parsed argument has the type asked for, and only a descriptor takes one from the queue.
  parse_arg_sound :
      (t : ArgumentType) (r s : Reader Fd) (a : Argument ℕ Fd)
      → parse_arg e t r ≡ (s, ok a)
      → HasType a t
        × (used : List Fd) × (r.fds ≡ used ++ s.fds)
        × (length used ≡ (if is_fd t then 1 else 0))
  unfolding is_fd
  parse_arg_sound ArgumentType.fd r s a h =
      let (ty, f, p) = parse_fd-HasType r.fds r.payload s a (unfold parse_arg in h) in
      (ty, f ∷ [], p, refl)
  parse_arg_sound ArgumentType.int r s a h =
      let (ty, p) = word_sound ArgumentType.int r s a refl h in (ty, [], p, refl)
  parse_arg_sound ArgumentType.uint r s a h =
      let (ty, p) = word_sound ArgumentType.uint r s a refl h in (ty, [], p, refl)
  parse_arg_sound ArgumentType.fixed r s a h =
      let (ty, p) = word_sound ArgumentType.fixed r s a refl h in (ty, [], p, refl)
  parse_arg_sound (ArgumentType.str n) r s a h =
      let (ty, p) = word_sound (ArgumentType.str n) r s a refl h in (ty, [], p, refl)
  parse_arg_sound (ArgumentType.object n) r s a h =
      let (ty, p) = word_sound (ArgumentType.object n) r s a refl h in (ty, [], p, refl)
  parse_arg_sound ArgumentType.new_id r s a h =
      let (ty, p) = word_sound ArgumentType.new_id r s a refl h in (ty, [], p, refl)
  parse_arg_sound ArgumentType.array r s a h =
      let (ty, p) = word_sound ArgumentType.array r s a refl h in (ty, [], p, refl)

  parse_args_cases :
      (t : ArgumentType) (ts : List ArgumentType) (r s : Reader Fd) (xs : List (Argument ℕ Fd))
      → parse_args e (t ∷ ts) r ≡ (s, ok xs)
      → (a : Argument ℕ Fd) × (args : List (Argument ℕ Fd)) × (u : Reader Fd) × (parse_arg e t r
          ≡ (u, ok a))
        × (parse_args e ts u ≡ (s, ok args))
        × (xs ≡ a ∷ args)
  unfolding parse_args
  parse_args_cases t ts r s xs h = go (parse_arg e t r) refl
    where
      go :
          (y : Reader Fd × Result (Argument ℕ Fd) MessageParseError)
          → parse_arg e t r ≡ y
          → (a : Argument ℕ Fd) × (args : List (Argument ℕ Fd)) × (u : Reader Fd) × (parse_arg e t r
              ≡ (u, ok a))
            × (parse_args e ts u ≡ (s, ok args))
            × (xs ≡ a ∷ args)
      go (u, err x) p = absurd (ground arith)
      go (u, ok a) p =
          let rest : cons_arg a (parse_args e ts u) ≡ (s, ok xs) = ground arith in
          let (args, q, shape) = cons_arg_ok a (parse_args e ts u) s xs rest in
          (a, args, u, p, q, shape)

  parse_args_sound :
      (ts : List ArgumentType) (r s : Reader Fd) (args : List (Argument ℕ Fd))
      → parse_args e ts r ≡ (s, ok args)
      → Fits ts args × (used : List Fd) × (r.fds ≡ used ++ s.fds) × (length used ≡ fd_count ts)
  unfolding fd_count
  parse_args_sound [] r s args h =
      let p : args ≡ [] = unfold parse_args in ground arith in
      let q : r ≡ s = unfold parse_args in ground arith in rw (p, q) (tt, [], refl, refl)
  parse_args_sound (t ∷ ts) r s xs h =
      let (a, args, u, p, q, shape) = parse_args_cases t ts r s xs h in
      let (ty, used, x, y) = parse_arg_sound t r u a p in
      let (fit, more, z, w) = parse_args_sound ts u s args q in
      (
        rw shape (ty, fit),
        used ++ more,
        x ∙ rw (append_assoc) (ap (λ l. used ++ l) z),
        omega (arith, length-append used more, y, w),
      )

  to_message_ok :
      (sender opcode : ℕ) (tail rest : List ℕ) (fds' : List Fd) (m : Message ℕ Fd)
      → (y : Reader Fd × Result (List (Argument ℕ Fd)) MessageParseError)
      → to_message sender opcode tail y ≡ (fds', ok (m, rest))
      → (s : Reader Fd) × (y ≡ (s, ok m.args))
        × (rest ≡ tail)
        × (fds' ≡ s.fds)
        × (m.sender_id ≡ sender)
        × (m.opcode ≡ opcode)
  unfolding to_message
  to_message_ok sender opcode tail rest fds' m (s, ok args) h =
      (s, ground arith, ground arith, ground arith, ground arith, ground arith)
  to_message_ok sender opcode tail rest fds' m (s, err x) h = absurd (ground arith)

  parse_body_ok :
      (sender word : ℕ) (raw rest : List ℕ) (signature : List ArgumentType) (fds fds' : List Fd)
      → (m : Message ℕ Fd) → parse_body e sender word raw signature fds ≡ (fds', ok (m, rest))
      → (8 ≤ header_len word)
        × (header_len word ≤ length raw)
        × (s : Reader Fd) × (parse_args e signature
              (record { payload = drop 8 (take (header_len word) raw); fds = fds })
            ≡ (s, ok m.args))
        × (rest ≡ drop (header_len word) raw)
        × (fds' ≡ s.fds)
        × (m.sender_id ≡ sender)
        × (m.opcode ≡ header_opcode word)
  unfolding parse_body
  parse_body_ok sender word raw rest signature fds fds' m h =
      elim (Bool-cases (ltb (header_len word) 8)) [
        | inl e ↦ absurd (ground arith)
        | inr p ↦ elim (Bool-cases (ltb (length raw) (header_len word))) [
          | inl e ↦ absurd (ground arith)
          | inr q ↦ elim (Bool-cases (ltb (length fds) (fd_count signature))) [
            | inl e ↦ absurd (ground arith)
            | inr r ↦
                let (s, x, y, z, v, w) =
                  to_message_ok sender _ _ rest fds' m _ (rw (p, q, r) at h) in
                (ground arith, ground arith, s, x, y, z, v, w)
          ]
        ]
      ]

  -- Every accepted input, whatever its bytes, was cut where its header says: that many bytes, at
  -- least 8 and at most all, were taken, and the rest is returned. Sender and opcode are those of the
  -- header, the arguments fit the signature, and the descriptors taken are the first ones of the
  -- queue, as many as the signature has.
  pub parse_message_sound :
      (raw rest : List ℕ) (signature : List ArgumentType) (fds fds' : List Fd) (m : Message ℕ Fd)
      → parse_message e raw signature fds ≡ (fds', ok (m, rest))
      → (8 ≤ header_len (word_of e raw))
        × (header_len (word_of e raw) ≤ length raw)
        × (rest ≡ drop (header_len (word_of e raw)) raw)
        × (m.sender_id ≡ (split_u32 e raw).0)
        × (m.opcode ≡ header_opcode (word_of e raw))
        × Fits signature m.args
        × (used : List Fd) × (fds ≡ used ++ fds')
        × (length used ≡ fd_count signature)
  unfolding parse_message
  parse_message_sound raw rest signature fds fds' m h =
      let (sender, tail) = split_u32 e raw in
      let word : ℕ = (split_u32 e tail).0 in
      let enough : ltb (length raw) 8 ≡ false = ground arith in
      let (a, b, s, p, q, r, v, w) =
        parse_body_ok sender word raw rest signature fds fds' m (rw enough at h) in
      let (fit, used, x, y) = parse_args_sound signature _ s m.args p in
      (a, b, q, v, w, fit, used, rw r x, y)

-- A prefix that is long enough begins with the head.
prefix_head :
    (head body front back : List ℕ)
    → head ++ body ≡ front ++ back
    → length head ≤ length front
    → (mid : List ℕ) × (front ≡ head ++ mid)
prefix_head [] body front back p h = (front, refl)
prefix_head (x ∷ head) body [] back p h = absurd (omega arith)
prefix_head (x ∷ head) body (y ∷ front) back p h =
    let (mid, q) = prefix_head head body front back (ground arith) (omega arith) in
    (mid, ground arith)

module _ (e : Endian) {Fd : Type 0} where
  parse_message_short :
      (raw tail : List ℕ) (signature : List ArgumentType) (fds : List Fd) (sender word n : ℕ)
      → 8 ≤ length raw
      → split_u32 e raw ≡ (sender, tail)
      → (split_u32 e tail).0 ≡ word
      → header_len word ≡ n
      → 8 ≤ n
      → length raw < n
      → parse_message e raw signature fds ≡ (fds, err missing_data)
  unfolding parse_message
  parse_message_short raw tail signature fds sender word n a p q r b c =
      rw (ltb-false (length raw) 8 a, p, q, r, ltb-false n 8 b, ltb-true (length raw) n c)

  -- On a proper prefix of an encoded message, of less than 64 KiB, `parse_message` asks for more data
  -- and takes no descriptor, whatever the signature is.
  pub parse_message-incomplete :
      (m : Message ℕ Fd) (signature : List ArgumentType) (bytes front back : List ℕ) (fds : List Fd)
      → IsMessage m
      → EncodesMessage e m bytes
      → length bytes < 65536
      → bytes ≡ front ++ back
      → 0 < length back
      → parse_message e front signature fds ≡ (fds, err missing_data)
  unfolding parse_message
  parse_message-incomplete m signature bytes front back fds v (body, enc, shape) small cut
        some_left =
      elim (Bool-cases (ltb (length front) 8)) [
        | inl short ↦ rw short
        | inr enough ↦
            let word : ℕ = pack_header (length bytes) m.opcode in
            let head : List ℕ = to_ne_bytes e m.sender_id ++ to_ne_bytes e word in
            let (mid, q) =
              prefix_head head body front back (sym shape ∙ cut) (
                omega (arith, length-head e m.sender_id word, le_of_ltb (length front) 8 enough)) in
            let full : length bytes ≡ length front + length back =
              ap length cut ∙ length-append front back in
            let room : 8 ≤ length front = le_of_ltb (length front) 8 enough in
            parse_message_short front (to_ne_bytes e word ++ mid) signature fds m.sender_id word
              (length bytes) room (rw q (two_words e m.sender_id word mid v.sender))
              (ap (λ p. p.0) (split_u32-to_ne_bytes e word mid (pack_header_lt _ _ small v.opcode)))
              (header_len-pack _ _ small v.opcode) (omega arith) (omega arith)
      ]
