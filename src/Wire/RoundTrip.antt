-- ===== src/Wire/RoundTrip.antt =====
-- What is written to the buffers is what `parse_message` reads from them.
use wayland_rs.Common.{
  ℕ, ◌+◌, ◌-◌, ◌%◌, ◌^◌, ◌≤◌, ◌<◌, ◌≡◌, refl, sym, ap, ◌∙◌, All, none, some, List, [], ◌∷◌, ◌++◌,
  append_assoc, append-nil, arith, length, length-append, length-drop, take, drop, ok, ltb-false,
  take-append_at, drop-append_at,
}
use wayland_rs.Common.Word.{
  Endian, IsU16, IsU32, to_ne_bytes, length-to_ne_bytes, split_u32, split_u32-to_ne_bytes,
  pack_header, pack_header_lt, header_opcode, header_opcode-pack, header_len, header_len-pack,
}
use wayland_rs.Protocol.{Argument, ArgumentType, Message}
use wayland_rs.Protocol.Signature.{HasType, Fits}
use wayland_rs.Io.{IoResult}
use wayland_rs.Wire.{
  Writer, write_args, write_to_buffers, parse_args, parse_message, to_message, fd_count,
}
use wayland_rs.Wire.Encoding.{EncodesAll, DupArg, DupArgs, fds_of, write_args_lem}
use wayland_rs.Wire.Arguments.{WellFormed, parse_args-EncodesAll, fd_count-Fits}

-- The bytes of a whole message: two header words and the arguments.
abbrev pub EncodesMessage : Endian → {Fd : Type 0} → Message ℕ Fd → List ℕ → Type 0
EncodesMessage e m bytes =
    (body : List ℕ) × EncodesAll e m.args body
    × (bytes
        ≡ (to_ne_bytes e m.sender_id ++ to_ne_bytes e (pack_header (length bytes) m.opcode))
          ++ body)

-- A message that its Rust types can hold.
pub record IsMessage {Fd : Type 0} (m : Message ℕ Fd) : Type 0 where
  pub sender : IsU32 m.sender_id
  pub opcode : IsU16 m.opcode
  pub args : All WellFormed m.args

module _ {RawFd Fd : Type 0} (dup : RawFd → IoResult Fd) where
  -- `m` as it comes out at the other end.
  pub record DupMessage (m : Message ℕ RawFd) (n : Message ℕ Fd) : Type 0 where
    pub sender : n.sender_id ≡ m.sender_id
    pub opcode : n.opcode ≡ m.opcode
    pub args : DupArgs dup m.args n.args

pub length-head : (e : Endian) (u v : ℕ) → length (to_ne_bytes e u ++ to_ne_bytes e v) ≡ 8
length-head e u v = omega (
  arith,
  length-append (to_ne_bytes e u) (to_ne_bytes e v),
  length-to_ne_bytes e u,
  length-to_ne_bytes e v,
)

module _ (e : Endian) {RawFd Fd : Type 0} (dup : RawFd → IoResult Fd) where
  abbrev start : List ℕ → List Fd → Writer Fd
  start payload fds = record { slice = record { written = []; free = drop 8 payload }; fds = fds }

  write_cases :
      (m : Message ℕ RawFd) (payload : List ℕ) (fds : List Fd)
      → {buf : List ℕ} {fds' : List Fd} {n : ℕ}
      → write_to_buffers e dup m payload fds ≡ (buf, fds', ok n)
      → (w : Writer Fd) × (8 ≤ length payload)
        × (write_args e dup m.args (start payload fds) ≡ (w, none))
        × (fds' ≡ w.fds)
        × (n ≡ length payload - length w.slice.free)
        × (buf
            ≡ (to_ne_bytes e m.sender_id ++ to_ne_bytes e (pack_header (n % 2 ^ 32) m.opcode))
              ++ (w.slice.written ++ w.slice.free))
  unfolding write_to_buffers
  write_cases m payload fds h = (
    (write_args e dup m.args (start payload fds)).0,
    ground arith,
    ground arith,
    ground arith,
    ground arith,
    ground arith,
  )

  pub write_bound :
      (m : Message ℕ RawFd) (payload : List ℕ) (fds : List Fd)
      → {buf : List ℕ} {fds' : List Fd} {n : ℕ}
      → write_to_buffers e dup m payload fds ≡ (buf, fds', ok n)
      → n ≤ length payload
  write_bound m payload fds h =
      let (w, _, _, _, n_eq, _) = write_cases m payload fds h in omega arith

  -- What a successful write leaves in the two buffers.
  pub record Sent (m : Message ℕ RawFd) (fds fds' : List Fd) (buf : List ℕ) (n : ℕ) : Type 0 where
    pub received : Message ℕ Fd
    pub same : DupMessage dup m received
    pub bytes : List ℕ
    pub tail : List ℕ
    pub encodes : EncodesMessage e received bytes
    pub size : length bytes ≡ n
    pub front : buf ≡ bytes ++ tail
    pub pushed : fds' ≡ fds ++ fds_of received.args

  pub write_to_buffers-Sent :
      (m : Message ℕ RawFd) (payload : List ℕ) (fds : List Fd)
      → {buf : List ℕ} {fds' : List Fd} {n : ℕ} → length payload < 2 ^ 32
      → write_to_buffers e dup m payload fds ≡ (buf, fds', ok n)
      → Sent m fds fds' buf n
  write_to_buffers-Sent m payload fds {n = n} big h =
      let (w, room, done, fds_eq, n_eq, buf_eq) = write_cases m payload fds h in
      let (body, args, enc, dups, wrote, pushed) =
        write_args_lem e dup m.args (start payload fds) w done in
      let head : List ℕ =
        to_ne_bytes e m.sender_id ++ to_ne_bytes e (pack_header (n % 2 ^ 32) m.opcode) in
      let len_body : 8 + length body ≡ n = omega (arith, wrote.room, length-drop 8 payload) in
      let len_bytes : length (head ++ body) ≡ n = omega (
        arith,
        length-append head body,
        length-head e m.sender_id (pack_header (n % 2 ^ 32) m.opcode),
      ) in
      let small : n % 2 ^ 32 ≡ n = omega arith in
      record {
        received = record { sender_id = m.sender_id; opcode = m.opcode; args = args };
        same = record { sender = refl; opcode = refl; args = dups };
        bytes = head ++ body;
        tail = w.slice.free;
        encodes = (body, enc, rw (len_bytes, small));
        size = len_bytes;
        front = buf_eq ∙ rw wrote.written (sym (append_assoc head body w.slice.free));
        pushed = fds_eq ∙ pushed;
      }

pub two_words :
    (e : Endian) (u v : ℕ) (rest : List ℕ)
    → IsU32 u
    → split_u32 e ((to_ne_bytes e u ++ to_ne_bytes e v) ++ rest) ≡ (u, to_ne_bytes e v ++ rest)
two_words e u v rest hu =
    rw (append_assoc (to_ne_bytes e u) (to_ne_bytes e v) rest)
      (split_u32-to_ne_bytes e u (to_ne_bytes e v ++ rest) hu)

module _ (e : Endian) {Fd : Type 0} where
  -- The way through `parse_message` on which the header is good and nothing is missing.
  parse_message_complete :
      (raw tail : List ℕ) (signature : List ArgumentType) (fds : List Fd) (sender word n opcode : ℕ)
      → 8 ≤ n
      → n ≤ length raw
      → fd_count signature ≤ length fds
      → split_u32 e raw ≡ (sender, tail)
      → (split_u32 e tail).0 ≡ word
      → header_len word ≡ n
      → header_opcode word ≡ opcode
      → parse_message e raw signature fds
        ≡ to_message sender opcode
            (drop n raw)
            (parse_args e signature (record { payload = drop 8 (take n raw); fds = fds }))
  unfolding parse_message
  parse_message_complete raw tail signature fds sender word n opcode a b c p q r s = rw (
    ltb-false (length raw) 8 (omega arith),
    p,
    q,
    r,
    s,
    ltb-false n 8 a,
    ltb-false (length raw) n b,
    ltb-false (length fds) (fd_count signature) c,
  )

  -- `parse_message` reads a well-formed message of less than 64 KiB back from its encoding, where its
  -- arguments fit the signature. It takes exactly its bytes and descriptors, and leaves what
  -- follows in both buffers.
  pub parse_message-EncodesMessage :
      (m : Message ℕ Fd) (signature : List ArgumentType) (bytes rest : List ℕ) (more : List Fd)
      → IsMessage m
      → Fits signature m.args
      → EncodesMessage e m bytes
      → length bytes < 65536
      → parse_message e (bytes ++ rest) signature (fds_of m.args ++ more) ≡ (more, ok (m, rest))
  unfolding to_message
  parse_message-EncodesMessage m signature bytes rest more v fit (body, enc, shape) small =
      let word : ℕ = pack_header (length bytes) m.opcode in
      let head : List ℕ = to_ne_bytes e m.sender_id ++ to_ne_bytes e word in
      let size : length bytes ≡ 8 + length body =
        ap length shape ∙ omega (arith, length-append head body, length-head e m.sender_id word) in
      let whole : bytes ++ rest ≡ head ++ (body ++ rest) =
        ap (λ x. x ++ rest) shape ∙ append_assoc head body rest in
      let inner : drop 8 (take (length bytes) (bytes ++ rest)) ≡ body ++ [] =
        rw (take-append_at (length bytes) bytes rest refl, append-nil)
          (ap (drop 8) shape ∙ drop-append_at 8 head body (sym (length-head e m.sender_id word))) in
      parse_message_complete (bytes ++ rest) (to_ne_bytes e word ++ (body ++ rest)) signature
        (fds_of m.args ++ more) m.sender_id word (length bytes) m.opcode (omega arith)
        (omega (arith, length-append bytes rest))
        (omega (arith, fd_count-Fits signature m.args fit, length-append (fds_of m.args) more))
        (rw whole (two_words e m.sender_id word (body ++ rest) v.sender))
        (ap (λ p. p.0)
          (split_u32-to_ne_bytes e word (body ++ rest) (pack_header_lt _ _ small v.opcode)))
        (header_len-pack _ _ small v.opcode) (header_opcode-pack _ _ small v.opcode)
      ∙ rw (
        inner,
        drop-append_at (length bytes) bytes rest refl,
        parse_args-EncodesAll e signature m.args body [] more v.args fit enc (omega arith),
      )

module _ {RawFd Fd : Type 0} (dup : RawFd → IoResult Fd) where
  DupArg-WellFormed :
      (a : Argument ℕ RawFd) (b : Argument ℕ Fd) → DupArg dup a b → WellFormed a → WellFormed b
  DupArg-WellFormed (Argument.fd f) b (x, p, q) w = rw q tt
  DupArg-WellFormed (Argument.int i) b d w = rw d w
  DupArg-WellFormed (Argument.uint i) b d w = rw d w
  DupArg-WellFormed (Argument.fixed i) b d w = rw d w
  DupArg-WellFormed (Argument.str none) b d w = rw d tt
  DupArg-WellFormed (Argument.str (some s)) b d w = rw d w
  DupArg-WellFormed (Argument.object o) b d w = rw d w
  DupArg-WellFormed (Argument.new_id o) b d w = rw d w
  DupArg-WellFormed (Argument.array a) b d w = rw d tt

  DupArgs-WellFormed :
      (xs : List (Argument ℕ RawFd)) (ys : List (Argument ℕ Fd))
      → DupArgs dup xs ys
      → All WellFormed xs
      → All WellFormed ys
  DupArgs-WellFormed [] [] d w = tt
  DupArgs-WellFormed [] (y ∷ ys) d w = absurd d
  DupArgs-WellFormed (x ∷ xs) [] d w = absurd d
  DupArgs-WellFormed (x ∷ xs) (y ∷ ys) (d, ds) (w, ws) =
      (DupArg-WellFormed x y d w, DupArgs-WellFormed xs ys ds ws)

  DupArg-HasType :
      (a : Argument ℕ RawFd) (b : Argument ℕ Fd) (t : ArgumentType)
      → DupArg dup a b
      → HasType a t
      → HasType b t
  DupArg-HasType _ b _ d HasType.int = rw d HasType.int
  DupArg-HasType _ b _ d HasType.uint = rw d HasType.uint
  DupArg-HasType _ b _ d HasType.fixed = rw d HasType.fixed
  DupArg-HasType _ b _ d HasType.str = rw d HasType.str
  DupArg-HasType _ b _ d HasType.object = rw d HasType.object
  DupArg-HasType _ b _ d HasType.new_id = rw d HasType.new_id
  DupArg-HasType _ b _ d HasType.array = rw d HasType.array
  DupArg-HasType _ b _ d HasType.fd = rw d.2 HasType.fd

  DupArgs-Fits :
      (xs : List (Argument ℕ RawFd)) (ys : List (Argument ℕ Fd)) (ts : List ArgumentType)
      → DupArgs dup xs ys
      → Fits ts xs
      → Fits ts ys
  DupArgs-Fits [] [] [] d f = tt
  DupArgs-Fits [] [] (t ∷ ts) d f = absurd f
  DupArgs-Fits [] (y ∷ ys) ts d f = absurd d
  DupArgs-Fits (x ∷ xs) [] ts d f = absurd d
  DupArgs-Fits (x ∷ xs) (y ∷ ys) [] d f = absurd f
  DupArgs-Fits (x ∷ xs) (y ∷ ys) (t ∷ ts) (d, ds) (f, fs) =
      (DupArg-HasType x y t d f, DupArgs-Fits xs ys ts ds fs)

module _ (e : Endian) {RawFd Fd : Type 0} (dup : RawFd → IoResult Fd) where
  -- Writing a message to a buffer of less than 64 KiB and parsing the bytes written, with any bytes
  -- and descriptors behind them, gives the message back with each descriptor duplicated. The parse
  -- takes exactly the bytes and the descriptors that the write added. The message is one that its
  -- Rust types can hold, and its arguments fit the signature.
  pub parse_message-write_to_buffers :
      (m : Message ℕ RawFd) (signature : List ArgumentType) (payload buf : List ℕ)
      → (fds fds' : List Fd) (n : ℕ) (rest : List ℕ) (more : List Fd) → length payload < 65536
      → IsMessage m
      → Fits signature m.args
      → write_to_buffers e dup m payload fds ≡ (buf, fds', ok n)
      → (new : List Fd) × (received : Message ℕ Fd) × DupMessage dup m received
        × (fds' ≡ fds ++ new)
        × (parse_message e (take n buf ++ rest) signature (new ++ more)
            ≡ (more, ok (received, rest)))
  parse_message-write_to_buffers m signature payload buf fds fds' n rest more small v fit h =
      let s = write_to_buffers-Sent e dup m payload fds (omega arith) h in
      let room : n ≤ length payload = (write_bound e dup m payload fds h) in
      let cut : take n buf ≡ s.bytes = rw s.front (take-append_at n s.bytes s.tail (sym s.size)) in
      let same = s.same in
      let received : IsMessage s.received = record {
        sender = rw same.sender v.sender;
        opcode = rw same.opcode v.opcode;
        args = DupArgs-WellFormed dup m.args s.received.args same.args v.args;
      } in
      (
        fds_of s.received.args,
        s.received,
        same,
        s.pushed,
        rw cut (
            parse_message-EncodesMessage e s.received signature s.bytes rest more received
              (DupArgs-Fits dup m.args s.received.args signature same.args fit) s.encodes
              (omega (arith, s.size))),
      )
