-- ===== src/Server/Rounds/Step.antt =====
-- One client is served by the loop.
use mathlib.Core.Option.{map}
use ens_sysres_proj.Common.{
  ℕ, ◌+◌, ◌-◌, ◌≤◌, ◌<◌, ◌^◌, ◌≡◌, refl, ap, sym, subst, ◌∙◌, ◌≢◌, ◌⊎◌, inl, inr, Option, none,
  some, List, ◌∷◌, ◌++◌, Bytes, ok, >>=-ok, arith, length, length-take, take, Bool-cases, ◌==◌,
}
use ens_sysres_proj.Cache.{FileCache, Folder}
use ens_sysres_proj.Server.{answering, Ptr, null_ptr, Client, Server, World, save}
use ens_sysres_proj.Server.Clients.{remove_client_from_server}
use ens_sysres_proj.Server.Clients.Refines.{load-some, payload, Keeps}
use ens_sysres_proj.Server.Clients.Updates.{Updates}
use ens_sysres_proj.Server.Requests.{read_from_client, after_read}
use ens_sysres_proj.Server.Requests.Receive.{with_chunk, receive-with_chunk, with_chunk-IsReading}
use ens_sysres_proj.Server.Requests.Process.{IsServing}
use ens_sysres_proj.Server.Requests.Reads.{read_from_client-Processed}
use ens_sysres_proj.Server.Answers.{write_to_client}
use ens_sysres_proj.Server.Answers.Content.{
  Leaves, save-Leaves, remove_client_from_server-Leaves, Represents-nonnull,
}
use ens_sysres_proj.Server.Answers.Total.{Stays, write_to_client-WrittenTo}
use ens_sysres_proj.Server.Rounds.{Ready}
use ens_sysres_proj.Server.Rounds.Moves.{IsRead, closed, processed, IsWritten, broken, written}
use ens_sysres_proj.Server.Rounds.Good.{IsGood, Processed-IsClient}
use ens_sysres_proj.Server.Rounds.Valid.{IsClient, IsServer, Updates-IsServer, Leaves-IsServer}

-- The client stays or leaves, the others are as before up to their links, and the server is well
-- formed again.
abbrev pub Stepped : FileCache → Folder → World → List Ptr → Ptr → List Ptr → World → Type 0
Stepped cache root w xs p ys w' =
    (w'.server.parameters ≡ w.server.parameters)
    × ((q : Ptr) → q ≢ p → Keeps w w' q)
    × (IsServer cache root w' (xs ++ p ∷ ys) ⊎ IsServer cache root w' (xs ++ ys))

module _ (cache : FileCache) (root : Folder) (w : World) (xs : List Ptr) (p : Ptr) (ys : List Ptr)
    (c : Client) (r : IsServer cache root w (xs ++ p ∷ ys)) (at : w.heap p ≡ some c) where
  few_int : length (xs ++ p ∷ ys) < 2 ^ 31
  few_int = omega (arith, r.few, r.max_int)

  Leaves-Stepped : (w' : World) → Leaves w w' xs p ys → Stepped cache root w xs p ys w'
  Leaves-Stepped w' leaves = (
    ap (λ (s : Server). s.parameters) leaves.same,
    leaves.others,
    inr (Leaves-IsServer cache root w w' xs p ys leaves r),
  )

  Updates-Stepped :
      (w' : World) (c' : Client)
      → Updates w w' p c'
      → c'.previous ≡ c.previous
      → c'.next ≡ c.next
      → IsClient w.server.parameters c'
      → Stepped cache root w xs p ys w'
  Updates-Stepped w' c' u before after v = (
    ap (λ (s : Server). s.parameters) u.same,
    λ q ne. ap (map payload) (u.others q ne),
    inl (Updates-IsServer cache root w w' p c c' (xs ++ p ∷ ys) at u before after v r),
  )

  pub removed-Stepped :
      (w' : World) × (remove_client_from_server w p ≡ ok w')
      × Stepped cache root w xs p ys w'
      × (w'.heap p ≡ none)
  removed-Stepped =
      let (w', runs, leaves) = remove_client_from_server-Leaves w xs p ys r.clients few_int in
      (w', runs, Leaves-Stepped w' leaves, leaves.gone)

  nonnull : p ≢ null_ptr
  nonnull = Represents-nonnull w xs p ys r.clients

  serving : (date : Bytes) → length date ≤ 255 → IsServing date w.server.parameters cache root
  serving date short = record {
    has_root = r.has_root;
    built = r.built;
    date_short = short;
    header_size = r.header_size;
  }

  -- Nothing arrived, or the buffer is full: the client is removed.
  empty_chunk-Stepped :
      (date bytes : Bytes)
      → length (take (w.server.parameters.request_buffer_size - c.request_buffer_length - 1) bytes)
        ≡ 0
      → (w' : World) × (read_from_client date (some bytes) w p ≡ ok w')
        × Stepped cache root w xs p ys w'
        × IsRead cache w.server.parameters date bytes c (w'.heap p)
  unfolding read_from_client after_read
  empty_chunk-Stepped date bytes empty =
      let chunk =
        take (w.server.parameters.request_buffer_size - c.request_buffer_length - 1) bytes in
      let c1 = with_chunk c chunk in
      let (w', runs, leaves) = save-Leaves w xs p ys r.clients few_int c c1 at refl refl in
      (
        w',
        >>=-ok _ (load-some w p nonnull at) (
            >>=-ok _ (receive-with_chunk w.server.parameters c bytes (r.valid p c at).reading)
              (ap (λ (n : ℕ). after_read date n (save w p c1) p) empty ∙ runs)),
        Leaves-Stepped w' leaves,
        subst (IsRead cache w.server.parameters date bytes c) (sym leaves.gone) (closed empty),
      )

  full_chunk-Stepped :
      (date bytes : Bytes)
      → length date ≤ 255
      → 1
        ≤ length
            (take (w.server.parameters.request_buffer_size - c.request_buffer_length - 1) bytes)
      → length bytes + 2 ≤ w.server.parameters.request_buffer_size
      → (w' : World) × (read_from_client date (some bytes) w p ≡ ok w')
        × Stepped cache root w xs p ys w'
        × IsRead cache w.server.parameters date bytes c (w'.heap p)
  full_chunk-Stepped date bytes short some_bytes small =
      let left = w.server.parameters.request_buffer_size - c.request_buffer_length - 1 in
      let chunk = take left bytes in
      let c1 = with_chunk c chunk in
      let v = r.valid p c at in
      let (w', c', runs, u, is) =
        read_from_client-Processed date cache root w p c bytes nonnull at r.cache_is
          (serving date short) v.reading v.header_size some_bytes
          (omega (arith, length-take left bytes)) in
      let (v', before, after) =
        Processed-IsClient date cache w.server.parameters c1 c'
          (with_chunk-IsReading w.server.parameters c chunk v.reading
            (omega (arith, length-take left bytes, v.reading.received)))
          v.header_size is in
      (
        w',
        runs,
        Updates-Stepped w' c' u before after v',
        subst (IsRead cache w.server.parameters date bytes c) (sym u.here) (processed is),
      )

  pub read_from_client-Stepped :
      (e : Ready) (good : IsGood w.server.parameters e)
      → (w' : World) × (read_from_client e.date e.arrived w p ≡ ok w')
        × Stepped cache root w xs p ys w'
        × IsRead cache w.server.parameters e.date good.bytes c (w'.heap p)
  read_from_client-Stepped e good =
      let chunk =
        take (w.server.parameters.request_buffer_size - c.request_buffer_length - 1) good.bytes in
      let as_bytes : read_from_client e.date e.arrived w p
          ≡ read_from_client e.date (some good.bytes) w p =
        ap (λ (o : Option Bytes). read_from_client e.date o w p) good.arrived in
      elim (Bool-cases (length chunk == 0)) [
        | inl empty ↦
            let (w', runs, ends, is) = empty_chunk-Stepped e.date good.bytes (ground arith) in
            (w', as_bytes ∙ runs, ends, is)
        | inr more ↦
            let (w', runs, ends, is) =
              full_chunk-Stepped e.date good.bytes good.date_short (ground arith) good.small in
            (w', as_bytes ∙ runs, ends, is)
      ]

  Stays-IsClient : (w' : World) (c' : Client) → Stays w w' p c c' → IsClient w.server.parameters c'
  Stays-IsClient w' c' stays =
      let v = r.valid p c at in
      let k = stays.kept in
      record {
        reading = record {
          size_int = v.reading.size_int;
          size = ap length k.request_buffer ∙ v.reading.size;
          received = omega (arith, k.request_buffer_length, v.reading.received);
          offset = k.request_buffer_offset ∙ v.reading.offset;
        };
        header_size = ap length k.answer_header_buffer ∙ v.header_size;
        sending = λ e. stays.sending;
      }

  pub write_to_client-Stepped :
      (e : Ready)
      → IsGood w.server.parameters e
      → c.state ≡ some answering
      → (w' : World) × (head body : Bytes) × (write_to_client e.header e.opened e.body w p
          ≡ ok (w', head, body))
        × Stepped cache root w xs p ys w'
        × IsWritten c (w'.heap p)
  write_to_client-Stepped e good state =
      let s = (r.valid p c at).sending state in
      let (w', head, body, runs, ends) =
        write_to_client-WrittenTo w xs p ys c e.header e.opened e.body r.clients few_int at s
          good.header good.opened good.body in
      (
        w',
        head,
        body,
        runs,
        elim ends [
          | inr leaves ↦ Leaves-Stepped w' leaves
          | inl there ↦
              let (c', stays) = there in
              Updates-Stepped w' c' stays.updates stays.kept.previous stays.kept.next
                (Stays-IsClient w' c' stays)
        ],
        elim ends [
          | inr leaves ↦ subst (IsWritten c) (sym leaves.gone) broken
          | inl there ↦
              let (c', stays) = there in
              subst (IsWritten c) (sym stays.updates.here) (written stays.kept stays.state)
        ],
      )
