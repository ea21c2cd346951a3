-- ===== src/Cache/Content/Loops.antt =====
-- What the two read loops leave in their buffers.
use ens_sysres_proj.Common.{
  ℕ, zero, suc, ◌+◌, ◌-◌, ◌≤◌, ◌<◌, ◌≡◌, refl, ap, List, [], ◌∷◌, ◌++◌, append-nil, append_assoc,
  Bytes, ok, hang, arith, length, length-append, length-take, length-drop, take, drop,
}
use ens_sysres_proj.Cache.Content.{read_pipe, run_readable_process, raw_loop}

-- All that a program wrote.
abbrev pub flatten : List Bytes → Bytes
flatten [] = []
flatten (piece ∷ rest) = piece ++ flatten rest

-- A pipe hands over at least one byte until its end.
abbrev pub HasBytes : List Bytes → Type 0
HasBytes [] = Unit {0}
HasBytes (piece ∷ rest) = (1 ≤ length piece) × HasBytes rest

read_pipe-length :
    (pieces : List Bytes) (len nb : ℕ) (out : Bytes)
    → length out ≡ nb
    → nb ≤ len
    → length (read_pipe pieces len nb out) ≤ len
unfolding read_pipe
read_pipe-length [] len nb out e h = omega arith
read_pipe-length (piece ∷ rest) len nb out e h = ground (
  arith,
  length-append out (take (len - nb) piece),
  length-take (len - nb) piece,
  read_pipe-length rest len (nb + length (take (len - nb) piece)) (out ++ take (len - nb) piece),
)

-- `n` and what the first list leaves of it, `r`.
take-append {ℓ} :
    {A : Type ℓ} (n r : ℕ) (xs ys : List A)
    → n ≡ length (take n xs) + r
    → take n (xs ++ ys) ≡ take n xs ++ take r ys
take-append zero r xs ys e = let z : r ≡ 0 = omega arith in rw z refl
take-append (suc n) r [] ys e = let z : r ≡ suc n = omega arith in rw z refl
take-append (suc n) r (x ∷ xs) ys e = ap (◌∷◌ x) (take-append n r xs ys (omega arith))

read_pipe-take :
    (pieces : List Bytes) (len nb r : ℕ) (out : Bytes)
    → HasBytes pieces
    → nb + r ≡ len
    → read_pipe pieces len nb out ≡ out ++ take r (flatten pieces)
unfolding read_pipe
read_pipe-take [] len nb zero out p e = rw append-nil
read_pipe-take [] len nb (suc r) out p e = rw append-nil
read_pipe-take (piece ∷ rest) len nb zero out p e = ground (arith, append-nil out)
read_pipe-take (piece ∷ rest) len nb (suc r) out p e =
    let c : len - nb ≡ suc r = omega arith in
    let left : ℕ = suc r - length (take (suc r) piece) in
    let chunk : Bytes = take (suc r) piece in
    let some_bytes : 1 ≤ length chunk = omega (arith, length-take (suc r) piece, p.0) in
    let room : suc r ≡ length chunk + left = omega (arith, length-take (suc r) piece) in
    rw c (
      ground (
        arith,
        some_bytes,
        read_pipe-take rest len (nb + length chunk) left (out ++ chunk) p.1 (omega arith),
        append_assoc out chunk (take left (flatten rest)),
        take-append (suc r) left piece (flatten rest) room,
      ))

-- If the output of the program arrives in pieces that are not empty, then the call leaves the
-- first bytes of the whole output in the buffer, as many as the buffer has room for.
pub run_readable_process-take :
    (pieces : List Bytes) (len : ℕ)
    → HasBytes pieces
    → run_readable_process pieces len ≡ take len (flatten pieces)
unfolding run_readable_process
run_readable_process-take pieces len p = read_pipe-take pieces len 0 len [] p (omega arith)

pub run_readable_process-length :
    (pieces : List Bytes) (len : ℕ) → length (run_readable_process pieces len) ≤ len
unfolding run_readable_process
run_readable_process-length pieces len = read_pipe-length pieces len 0 [] refl (omega arith)

-- Once the file has no byte left, the loop does not end.
raw_loop-hang :
    (k : ℕ) (data_ : Bytes) (size nb : ℕ) (buffer : Bytes)
    → length data_ ≤ nb
    → nb < size
    → raw_loop k data_ size nb buffer ≡ hang
unfolding raw_loop
raw_loop-hang zero data_ size nb buffer short more = refl
raw_loop-hang (suc k) data_ size nb buffer short more = ground (
  arith,
  length-take (size - nb) (drop nb data_),
  length-drop nb data_,
  raw_loop-hang k data_ size (nb + length (take (size - nb) (drop nb data_)))
      (take (size - nb) (drop nb data_) ++ drop (length (take (size - nb) (drop nb data_))) buffer),
)

drop_nil {ℓ} : {A : Type ℓ} (n : ℕ) → drop {A = A} n [] ≡ []
drop_nil zero = refl
drop_nil (suc n) = refl

-- With the whole file on the disk, one read does it.
pub raw_loop-take :
    (k : ℕ) (data_ : Bytes) (size : ℕ)
    → size ≤ length data_
    → raw_loop (suc (suc k)) data_ size 0 [] ≡ ok (take size data_)
unfolding raw_loop
raw_loop-take k data_ zero h = refl
raw_loop-take k data_ (suc n) h =
    let e : suc n - 0 ≡ suc n = omega arith in
    rw e (
      ground (
        arith,
        length-take (suc n) data_,
        drop_nil {A = ℕ} (length (take (suc n) data_)),
        append-nil (take (suc n) data_),
      ))

-- A file that became shorter keeps the loop running, however many rounds it gets.
pub raw_loop_short :
    (k : ℕ) (data_ : Bytes) (size : ℕ) → length data_ < size → raw_loop k data_ size 0 [] ≡ hang
unfolding raw_loop
raw_loop_short zero data_ size h = refl
raw_loop_short (suc k) data_ size h =
    let chunk : Bytes = take (size - 0) data_ in
    ground (
      arith,
      length-take (size - 0) data_,
      raw_loop-hang k data_ size (0 + length chunk) (chunk ++ drop (length chunk) []),
    )
