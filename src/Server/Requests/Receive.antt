-- ===== src/Server/Requests/Receive.antt =====
-- What one read from a client leaves in its buffer.
use ens_sysres_proj.Common.{
  ℕ, suc, ◌+◌, ◌-◌, ◌≤◌, ◌<◌, ◌^◌, ◌≡◌, refl, ap, ◌∙◌, none, some, [], ◌∷◌, ◌++◌, Bytes, ok, fault,
  >>=-ok, arith, length, length-append, length-take, length-drop, take, drop, take-append_length,
  drop-drop, drop-append_more, le→leb, add_int,
}
use ens_sysres_proj.Http.Header.{overwrite}
use ens_sysres_proj.Server.{Client, ServParameters}
use ens_sysres_proj.Server.Requests.{read_size, receive}

-- The buffer of a request, and how much of it is taken.
pub record IsReading (parameters : ServParameters) (c : Client) : Type 0 where
  pub size_int : parameters.request_buffer_size < 2 ^ 31
  pub size : length c.request_buffer ≡ parameters.request_buffer_size
  pub received : c.request_buffer_length < parameters.request_buffer_size
  pub offset : c.request_buffer_offset ≡ 0

pub read_size_lem :
    (parameters : ServParameters) (c : Client)
    → IsReading parameters c
    → read_size parameters c ≡ parameters.request_buffer_size - c.request_buffer_length - 1
read_size_lem parameters c r = ground (arith, r.size_int, r.received)

overwrite_start :
    (buffer out : Bytes)
    → length out ≤ length buffer
    → overwrite buffer 0 out ≡ ok (out ++ drop (length out) buffer)
unfolding overwrite
overwrite_start buffer out fits =
    let e : 0 + length out ≡ length out = omega arith in
    rw (e, le→leb (length out) (length buffer) fits)

overwrite_nul :
    (chunk rest : Bytes) (at_ : ℕ)
    → at_ ≡ length chunk
    → 1 ≤ length rest
    → overwrite (chunk ++ rest) at_ (0 ∷ []) ≡ ok (chunk ++ 0 ∷ drop 1 rest)
unfolding overwrite
overwrite_nul chunk rest at_ e more =
    rw
      (
        le→leb (at_ + 1) (length (chunk ++ rest)) (omega (arith, length-append chunk rest)),
        drop-append_more chunk rest (at_ + 1) (omega arith),
      )
      (ap (λ (x : Bytes). ok (x ++ 0 ∷ drop 1 rest))
        (ap (λ (n : ℕ). take n (chunk ++ rest)) e ∙ take-append_length chunk rest))

-- The client after a read of that chunk.
abbrev pub with_chunk : Client → Bytes → Client
with_chunk c chunk = record c {
  request_buffer = chunk ++ 0 ∷ drop (suc (length chunk)) c.request_buffer;
  request_buffer_length = c.request_buffer_length + length chunk;
}

receive_chunk :
    (parameters : ServParameters) (c : Client) (arrived chunk : Bytes)
    → IsReading parameters c
    → take (read_size parameters c) arrived ≡ chunk
    → length chunk + c.request_buffer_length < parameters.request_buffer_size
    → receive parameters c (some arrived) ≡ ok (with_chunk c chunk, length chunk)
unfolding receive
receive_chunk parameters c arrived chunk r e fits =
    let n = length chunk in
    let kept = drop n c.request_buffer in
    let sum : add_int c.request_buffer_length n ≡ c.request_buffer_length + n =
      omega (arith, r.size_int) in
    rw e (
      >>=-ok _
        (ap (λ (o : ℕ). overwrite c.request_buffer o chunk) r.offset
          ∙ overwrite_start c.request_buffer chunk (omega (arith, r.size)))
        (>>=-ok _
          (overwrite_nul chunk kept (add_int c.request_buffer_offset n)
            (omega (arith, r.offset, r.size_int))
            (omega (arith, r.size, length-drop n c.request_buffer)))
          (rw (drop-drop n c.request_buffer, sum) refl)))

pub receive-with_chunk :
    (parameters : ServParameters) (c : Client) (arrived : Bytes)
    → IsReading parameters c
    → let chunk = take (parameters.request_buffer_size - c.request_buffer_length - 1) arrived in
      receive parameters c (some arrived) ≡ ok (with_chunk c chunk, length chunk)
receive-with_chunk parameters c arrived r =
    receive_chunk parameters c arrived _ r
      (ap (λ (n : ℕ). take n arrived) (read_size_lem parameters c r))
      (omega (
        arith,
        r.received,
        length-take (parameters.request_buffer_size - c.request_buffer_length - 1) arrived,
      ))

-- A client whose buffer is full.
pub receive-full :
    (parameters : ServParameters) (c : Client) (arrived : Bytes)
    → IsReading parameters c
    → c.request_buffer_length + 1 ≡ parameters.request_buffer_size
    → receive parameters c (some arrived) ≡ ok (with_chunk c [], 0)
receive-full parameters c arrived r full =
    let none_left : read_size parameters c ≡ 0 = read_size_lem parameters c r ∙ omega arith in
    receive_chunk parameters c arrived [] r (ap (λ (n : ℕ). take n arrived) none_left)
      (omega (arith, r.received))

-- For a client with a request buffer of the right size, which is an int, less of a request than
-- it holds, and the offset 0: a read that fails leads to a write in front of the buffer.
receive-failed :
    (parameters : ServParameters) (c : Client)
    → IsReading parameters c
    → receive parameters c none ≡ fault
unfolding receive overwrite
receive-failed parameters c r = ground (arith, r.size, r.size_int, r.offset)

pub with_chunk-IsReading :
    (parameters : ServParameters) (c : Client) (chunk : Bytes)
    → IsReading parameters c
    → length chunk + c.request_buffer_length < parameters.request_buffer_size
    → IsReading parameters (with_chunk c chunk)
with_chunk-IsReading parameters c chunk r fits = record {
  size_int = r.size_int;
  size = omega (
    arith,
    r.size,
    length-append chunk (0 ∷ drop (suc (length chunk)) c.request_buffer),
    length-drop (suc (length chunk)) c.request_buffer,
  );
  received = omega arith;
  offset = r.offset;
}
