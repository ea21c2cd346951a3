-- ===== src/Server/Clients/Removal.antt =====
-- Removing a client against the list of addresses.
use mathlib.Core.Option.{map}
use ens_sysres_proj.Common.{
  ◌<◌, ◌^◌, ◌≡◌, refl, sym, ap, ◌∙◌, ◌≢◌, true, false, inl, inr, none, some, List, [], ◌∷◌, ◌++◌,
  ok, >>=-ok, arith, length, length-append, Bool-cases, ◌==◌, if◌then◌else◌, sub_int,
}
use ens_sysres_proj.Server.{Ptr, null_ptr, Client, Heap, World, write}
use ens_sysres_proj.Server.Clients.{
  delete_client, set_clients, unlink_next, unlink_previous, remove_client_from_server,
}
use ens_sysres_proj.Server.Clients.Chain.{
  head_of, last_of, Misses, Distinct, Chain, Unlinked, Chain-links, Chain-unlinked, Misses-append,
  Misses-head,
}
use ens_sysres_proj.Server.Clients.Refines.{
  Represents, payload, Keeps, settings, load-some, write_self, write_other,
}
use ens_sysres_proj.Server.Clients.Patch.{
  Distinct-remove, Chain-last, Chain-next, Distinct-after, Chain-tail, Patch, Exists,
  unlink_next-Patch, unlink_previous-Patch, Patch-Unlinked,
}

-- The world that `removeClientFromServer` leaves.
abbrev removed : World → Heap → Ptr → Client → World
removed w h p c =
    let w' = record w { heap = h } in
    let w'' = if w.server.clients == p then set_clients w' c.next else w' in
    record w'' {
      server = record w''.server { nb_clients = sub_int w''.server.nb_clients 1 };
      heap = write h p none;
    }

remove_ok :
    (w : World) (p : Ptr) (c : Client) (h1 h2 : Heap)
    → p ≢ null_ptr
    → unlink_next w p ≡ ok (record w { heap = h1 })
    → unlink_previous (record w { heap = h1 }) p ≡ ok (record w { heap = h2 })
    → h2 p ≡ some c
    → remove_client_from_server w p ≡ ok (removed w h2 p c)
unfolding remove_client_from_server delete_client
remove_ok w p c h1 h2 nonnull runs1 runs2 e = >>=-ok _ runs1 (
    >>=-ok _ runs2 (
      >>=-ok _ (load-some (record w { heap = h2 }) p nonnull e)
        (elim (Bool-cases (w.server.clients == p)) [
          | inl first ↦ rw first (>>=-ok _ (load-some _ p nonnull e) refl)
          | inr other ↦ rw other (>>=-ok _ (load-some _ p nonnull e) refl)
        ])))

last-away :
    (b : Ptr) (xs : List Ptr) (p : Ptr) (ys : List Ptr)
    → b ≢ p
    → Distinct (xs ++ p ∷ ys)
    → last_of b xs ≢ p
last-away b [] p ys h d = h
last-away b (x ∷ xs) p ys h d =
    last-away x xs p ys (λ z. (Misses-append x xs p ys d.0).1 (sym z)) d.1

last-apart :
    (b : Ptr) (xs : List Ptr) (p : Ptr) (ys : List Ptr)
    → Misses b ys
    → Distinct (xs ++ p ∷ ys)
    → last_of b xs ≢ null_ptr
    → last_of b xs ≢ head_of ys
last-apart b [] p ys m d nonnull = λ z. Misses-head b ys nonnull m (sym z)
last-apart b (x ∷ xs) p ys m d nonnull =
    last-apart x xs p ys (Misses-append x xs p ys d.0).2 d.1 nonnull

Chain-Misses : (h : Heap) (b : Ptr) (l : List Ptr) → Chain h b l → Misses null_ptr l
Chain-Misses h b [] s = tt
Chain-Misses h b (p ∷ l) s = (s.0, Chain-Misses h p l s.2)

-- The first address after the removal.
first_left :
    (w : World) (xs : List Ptr) (p : Ptr) (ys : List Ptr) (c : Client) (h : Heap)
    → w.server.clients ≡ head_of (xs ++ p ∷ ys)
    → Distinct (xs ++ p ∷ ys)
    → c.next ≡ head_of ys
    → (removed w h p c).server.clients ≡ head_of (xs ++ ys)
first_left w [] p ys c h first d e =
    let same : (w.server.clients == p) ≡ true = ground (arith, first) in rw same e
first_left w (x ∷ xs) p ys c h first d e =
    let other : (w.server.clients == p) ≡ false =
      ground (arith, first, λ (z : x ≡ p). (Misses-append x xs p ys d.0).1 (sym z)) in
    rw other first

removed-settings :
    (w : World) (h : Heap) (p : Ptr) (c : Client) → settings (removed w h p c) ≡ settings w
removed-settings w h p c = elim (Bool-cases (w.server.clients == p)) [
  | inl e ↦ rw e refl
  | inr e ↦ rw e refl
]

removed-count :
    (w : World) (h : Heap) (p : Ptr) (c : Client)
    → (removed w h p c).server.nb_clients ≡ sub_int w.server.nb_clients 1
removed-count w h p c = elim (Bool-cases (w.server.clients == p)) [
  | inl e ↦ rw e refl
  | inr e ↦ rw e refl
]

module _ (w : World) (xs : List Ptr) (p : Ptr) (ys : List Ptr) (c : Client)
    (r : Represents w (xs ++ p ∷ ys)) (small : length (xs ++ p ∷ ys) < 2 ^ 31)
    (nonnull : p ≢ null_ptr) (e : w.heap p ≡ some c) (pr : c.previous ≡ last_of null_ptr xs)
    (nx : c.next ≡ head_of ys) where
  -- What the removal ends with.
  abbrev Removes : Type 0
  Removes =
      (w' : World) × (remove_client_from_server w p ≡ ok w')
      × Represents w' (xs ++ ys)
      × (w'.heap p ≡ none)
      × ((q : Ptr) → q ≢ p → Keeps w w' q)
      × (settings w' ≡ settings w)

  removed-Represents :
      (h : Heap) → Unlinked w.heap (write h p none) p c → Represents (removed w h p c) (xs ++ ys)
  removed-Represents h u = record {
    first = first_left w xs p ys c h r.first r.distinct nx;
    chain =
        Chain-unlinked w.heap (write h p none) p c u null_ptr xs ys pr nx
          (Chain-Misses w.heap null_ptr (xs ++ p ∷ ys) r.chain) r.distinct r.chain;
    distinct = Distinct-remove xs p ys r.distinct;
    count = omega (
      arith,
      removed-count w h p c,
      r.count,
      small,
      length-append xs ys,
      length-append xs (p ∷ ys),
    );
  }

  module _ (next_away : c.next ≢ p) (previous_away : c.previous ≢ p)
      (apart : c.previous ≢ null_ptr → c.previous ≢ c.next) where
    removes_after :
        (h1 h2 : Heap)
        → unlink_next w p ≡ ok (record w { heap = h1 })
        → unlink_previous (record w { heap = h1 }) p ≡ ok (record w { heap = h2 })
        → Patch w.heap h1 c.next (λ d. record d { previous = c.previous })
        → Patch h1 h2 c.previous (λ d. record d { next = c.next })
        → Removes
    removes_after h1 h2 runs1 runs2 patch1 patch2 =
        let still : h2 p ≡ some c =
          patch2.miss p (λ z. previous_away (sym z)) ∙ patch1.miss p (λ z. next_away (sym z)) ∙ e in
        (
          removed w h2 p c,
          remove_ok w p c h1 h2 nonnull runs1 runs2 still,
          removed-Represents h2
              (Patch-Unlinked w.heap p c next_away previous_away apart h1 h2 patch1 patch2),
          write_self h2 p none,
          λ q away.
              ap (map payload) (write_other h2 p q none away) ∙ patch2.keeps q ∙ patch1.keeps q,
          removed-settings w h2 p c,
        )

    removes_next :
        (h1 : Heap)
        → unlink_next w p ≡ ok (record w { heap = h1 })
        → Patch w.heap h1 c.next (λ d. record d { previous = c.previous })
        → Removes
    removes_next h1 runs1 patch1 =
        let there : Exists h1 c.previous = λ a.
          let (d, at) =
            Chain-last w.heap null_ptr xs p ys (λ z. absurd (z refl)) r.chain (λ z. a (pr ∙ z)) in
          (d, patch1.miss c.previous (apart a) ∙ ap w.heap pr ∙ at) in
        let (h2, runs2, patch2) =
          unlink_previous-Patch (record w { heap = h1 }) p c nonnull
            (patch1.miss p (λ z. next_away (sym z)) ∙ e) there in
        removes_after h1 h2 runs1 runs2 patch1 patch2

    removes : Removes
    removes =
        let there : Exists w.heap c.next = λ a.
          let (d, at) =
            Chain-next w.heap p ys (Chain-tail w.heap null_ptr xs p ys r.chain) (λ z. a (nx ∙ z)) in
          (d, ap w.heap nx ∙ at) in
        let (h1, runs1, patch1) = unlink_next-Patch w p c nonnull e there in
        removes_next h1 runs1 patch1

-- For a server whose clients are the addresses of a list, with fewer than 2 ^ 31 of them:
-- removing one of them, wherever it stands, returns, and the clients of the server are then the
-- rest of the list in its order, linked both ways and counted. The client is freed, the others
-- keep all but their links, and the server keeps all but its first client and its count.
pub remove_client_from_server-Represents :
    (w : World) (xs : List Ptr) (p : Ptr) (ys : List Ptr)
    → Represents w (xs ++ p ∷ ys)
    → length (xs ++ p ∷ ys) < 2 ^ 31
    → (w' : World) × (remove_client_from_server w p ≡ ok w')
      × Represents w' (xs ++ ys)
      × (w'.heap p ≡ none)
      × ((q : Ptr) → q ≢ p → Keeps w w' q)
      × (settings w' ≡ settings w)
remove_client_from_server-Represents w xs p ys r small =
    let (nonnull, (c, e, pr, nx)) = Chain-links w.heap null_ptr xs p ys r.chain in
    let no_null = Chain-Misses w.heap null_ptr (xs ++ p ∷ ys) r.chain in
    let next_away : c.next ≢ p =
      λ z. Misses-head p ys nonnull (Distinct-after xs p ys r.distinct) (sym nx ∙ z) in
    let previous_away : c.previous ≢ p =
      λ z. last-away null_ptr xs p ys (λ y. nonnull (sym y)) r.distinct (sym pr ∙ z) in
    let apart : c.previous ≢ null_ptr → c.previous ≢ c.next = λ a z.
      last-apart null_ptr xs p ys (Misses-append null_ptr xs p ys no_null).2 r.distinct
        (λ y. a (pr ∙ y)) (sym pr ∙ z ∙ nx) in
    removes w xs p ys c r small nonnull e pr nx next_away previous_away apart
