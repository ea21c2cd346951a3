-- ===== src/Server/Rounds/Moves.antt =====
-- How a client moves when the loop handles it: the automaton of the states of a client.
use ens_sysres_proj.Common.{
  ℕ, ◌-◌, ◌≤◌, arith, ◌≡◌, ◌⊎◌, Bool, true, false, Option, none, some, Bytes, length, take,
}
use ens_sysres_proj.Cache.{FileCache}
use ens_sysres_proj.Server.{
  ClientState, waiting_for_request, processing_request, answering, Client, ServParameters,
}
use ens_sysres_proj.Server.Requests.Receive.{with_chunk}
use ens_sysres_proj.Server.Requests.Process.{Processed}
use ens_sysres_proj.Server.Answers.Total.{Kept}
use ens_sysres_proj.Server.Rounds.{Ready}

-- What `read` takes of the bytes that arrived.
abbrev pub chunk_of : ServParameters → Client → Bytes → Bytes
chunk_of parameters c bytes =
    take (parameters.request_buffer_size - c.request_buffer_length - 1) bytes

-- Whether the state asks for the events that are there.
abbrev pub is_served : Ready → Option ClientState → Bool
is_served e (some waiting_for_request) = e.poll_in
is_served e (some answering) = e.poll_out
is_served e (some processing_request) = false
is_served e none = false

-- What a client that bytes were read from becomes: it is removed if there were none.
pub data IsRead (cache : FileCache) (parameters : ServParameters) (date bytes : Bytes) (c : Client)
    : Option Client → Type 0 where
  closed : length (chunk_of parameters c bytes) ≡ 0 → IsRead cache parameters date bytes c none
  processed :
      {c' : Client}
      → Processed date cache (with_chunk c (chunk_of parameters c bytes)) c'
      → IsRead cache parameters date bytes c (some c')

-- What a client that was written to becomes: its state stays, or is that of waiting.
pub data IsWritten (c : Client) : Option Client → Type 0 where
  broken : IsWritten c none
  written :
      {c' : Client}
      → Kept c c'
      → (c'.state ≡ c.state) ⊎ (c'.state ≡ some waiting_for_request)
      → IsWritten c (some c')

-- A step of the loop for a client, with whether it is counted, and what the client becomes.
pub data Moves (cache : FileCache) (parameters : ServParameters) (e : Ready) (bytes : Bytes)
    (c : Client) : ℕ → Option Client → Type 0 where
  hangs_up : e.poll_hup ≡ true → Moves cache parameters e bytes c 0 none
  stays :
      e.poll_hup ≡ false → is_served e c.state ≡ false → Moves cache parameters e bytes c 0 (some c)
  reads :
      {o : Option Client}
      → e.poll_hup ≡ false
      → c.state ≡ some waiting_for_request
      → e.poll_in ≡ true
      → IsRead cache parameters e.date bytes c o
      → Moves cache parameters e bytes c 1 o
  writes :
      {o : Option Client}
      → e.poll_hup ≡ false
      → c.state ≡ some answering
      → e.poll_out ≡ true
      → IsWritten c o
      → Moves cache parameters e bytes c 1 o

-- A client counts once at most.
pub Moves-count :
    {cache : FileCache} {parameters : ServParameters} {e : Ready} {bytes : Bytes} {c : Client}
    {n : ℕ} {o : Option Client}
    → Moves cache parameters e bytes c n o
    → n ≤ 1
Moves-count (hangs_up _) = omega arith
Moves-count (stays _ _) = omega arith
Moves-count (reads _ _ _ _) = omega arith
Moves-count (writes _ _ _ _) = omega arith
