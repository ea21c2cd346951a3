-- ===== src/Server/Deletion.antt =====
-- src/server.c: the deletion of the server at the end of the program.
use ens_sysres_proj.Common.{
  ℕ, zero, suc, ◌≡◌, refl, sym, ap, ◌∙◌, ◌⊎◌, inl, inr, Bool, Bool-cases, false, Option, none, some,
  List, [], ◌∷◌, Outcome, ok, exit, true, out_of_fuel, ◌>>=◌, ◌>>◌, >>=-ok, arith, length, ◌==◌,
  if◌then◌else◌,
}
use ens_sysres_proj.Cache.{FileCache, Folder}
use ens_sysres_proj.Cache.Delete.{delete_root, delete_file_cache, recursively_delete_folder-Returns}
use ens_sysres_proj.Server.{Ptr, null_ptr, Server, Heap, World, load, write}
use ens_sysres_proj.Server.Clients.{delete_client}
use ens_sysres_proj.Server.Clients.Chain.{head_of, Misses, Distinct, Chain, Agrees-Chain}
use ens_sysres_proj.Server.Clients.Refines.{load-some, write_self, write_other, Agrees-write}
use ens_sysres_proj.Server.Rounds.Valid.{IsServer}

-- The loop over the clients. It ends at NULL, one round behind the last client.
unfoldable pub delete_clients : (rounds : ℕ) → World → Ptr → Outcome World
delete_clients zero w p = if p == null_ptr then ok w else out_of_fuel
delete_clients (suc n) w p =
    if p == null_ptr
    then ok w
    else do c ← load w p; w ← delete_client w p; delete_clients n w c.next

abbrev pub delete_cache : Option FileCache → Outcome (Unit {0})
delete_cache none = ok tt
delete_cache (some cache) = delete_file_cache cache

-- By whether `close` succeeds for the descriptor of the server.
unfoldable pub disconnect_server : (is_closed : Bool) → World → Outcome World
disconnect_server true w = ok (record w { server = record w.server { is_started = false } })
disconnect_server false w = exit "close() failed in disconnectServer()"

-- The result is what the memory holds before the server itself is freed.
unfoldable pub delete_server : (is_closed : Bool) → World → Outcome World
unfolding delete_clients disconnect_server
delete_server is_closed w = do
  w ← disconnect_server is_closed w
  w ← delete_clients (suc w.server.nb_clients) w w.server.clients
  delete_cache w.server.cache
  ok w

-- No client is allocated at these addresses.
abbrev AllFreed : Heap → List Ptr → Type 0
AllFreed h [] = Unit {0}
AllFreed h (p ∷ l) = (h p ≡ none) × AllFreed h l

delete_clients-AllFreed :
    (w : World) (before : Ptr) (l : List Ptr)
    → Chain w.heap before l
    → Distinct l
    → (w' : World) × (delete_clients (suc (length l)) w (head_of l) ≡ ok w')
      × AllFreed w'.heap l
      × ((q : Ptr) → Misses q l → w'.heap q ≡ w.heap q)
      × (w'.server ≡ w.server)
unfolding delete_clients delete_client
delete_clients-AllFreed w before [] s d = (w, refl, tt, λ q m. refl, refl)
delete_clients-AllFreed w before (p ∷ l) (nonnull, (c, at, _, next), s) d =
    let w1 = record w { heap = write w.heap p none } in
    let (w', runs, freed, others, same) =
      delete_clients-AllFreed w1 p l
        (Agrees-Chain w.heap w1.heap p l (Agrees-write w.heap p none l d.0) s) d.1 in
    let away : (p == null_ptr) ≡ false = ground arith in
    (
      w',
      ap
            (λ (b : Bool).
              if b
              then ok w
              else do c ← load w p; w ← delete_client w p; delete_clients (suc (length l)) w c.next)
            away
          ∙ >>=-ok _ (load-some w p nonnull at) (
              >>=-ok _ (>>=-ok _ (load-some w p nonnull at) refl)
                (ap (delete_clients (suc (length l)) w1) next ∙ runs)),
      (others p d.0 ∙ write_self w.heap p none, freed),
      λ q m. others q m.1 ∙ write_other w.heap p q none (λ same. m.0 (sym same)),
      same,
    )

delete_server-AllFreed :
    (cache : FileCache) (root : Folder) (w : World) (l : List Ptr)
    → IsServer cache root w l
    → (w' : World) × (delete_server true w ≡ ok w')
      × AllFreed w'.heap l
      × ((q : Ptr) → Misses q l → w'.heap q ≡ w.heap q)
unfolding delete_server disconnect_server
delete_server-AllFreed cache root w l r =
    let w0 = record w { server = record w.server { is_started = false } } in
    let (w', runs, freed, others, same) =
      delete_clients-AllFreed w0 null_ptr l r.clients.chain r.clients.distinct in
    let cache_is : w'.server.cache ≡ some cache = ap (λ (s : Server). s.cache) same ∙ r.cache_is in
    (
      w',
      >>=-ok _
          (ap (λ (n : ℕ). delete_clients (suc n) w0 w.server.clients) r.clients.count
            ∙ ap (delete_clients (suc (length l)) w0) r.clients.first
            ∙ runs)
          (>>=-ok _
            (ap delete_cache cache_is
              ∙ ap delete_root r.has_root
              ∙ recursively_delete_folder-Returns root r.built)
            refl),
      freed,
      others,
    )

freed-or-Misses : (h : Heap) (q : Ptr) (l : List Ptr) → AllFreed h l → (h q ≡ none) ⊎ Misses q l
freed-or-Misses h q [] f = inr tt
freed-or-Misses h q (p ∷ l) f = elim (Bool-cases (p == q)) [
  | inl here ↦ let same : q ≡ p = ground arith in inl (ap h same ∙ f.0)
  | inr away ↦ elim (freed-or-Misses h q l f.1) [
    | inl e ↦ inl e
    | inr m ↦ inr ((λ z. ground arith), m)
  ]
]

pub delete_server_empty :
    (cache : FileCache) (root : Folder) (w : World) (l : List Ptr)
    → IsServer cache root w l
    → (w' : World) × (delete_server true w ≡ ok w') × ((q : Ptr) → w'.heap q ≡ none)
delete_server_empty cache root w l r =
    let (w', runs, freed, others) = delete_server-AllFreed cache root w l r in
    (
      w',
      runs,
      λ q. elim (freed-or-Misses w'.heap q l freed) [ inl e ↦ e | inr m ↦ others q m ∙ r.only q m ],
    )
