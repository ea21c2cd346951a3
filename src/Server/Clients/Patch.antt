-- ===== src/Server/Clients/Patch.antt =====
-- The steps that unlink a client, as changes of its two neighbours.
use mathlib.Core.Option.{map}
use ens_sysres_proj.Common.{
  ◌≡◌, refl, sym, ◌∙◌, ◌≢◌, inl, inr, none, some, List, [], ◌∷◌, ◌++◌, ok, >>=-ok, arith,
  Bool-cases, ◌==◌,
}
use ens_sysres_proj.Server.{Ptr, null_ptr, Client, Heap, World, write}
use ens_sysres_proj.Server.Clients.{unlink_next, unlink_previous}
use ens_sysres_proj.Server.Clients.Chain.{head_of, last_of, Misses, Distinct, Chain, Unlinked}
use ens_sysres_proj.Server.Clients.Refines.{
  payload, load-some, set_previous_lem, set_next_lem, write_self, write_other, write-payload,
}

-- A heap in which the client at `q`, if that is not NULL, was changed by `f`, which keeps payloads.
pub record Patch (h h' : Heap) (q : Ptr) (f : Client → Client) : Type 0 where
  pub hit : (d : Client) → q ≢ null_ptr → h q ≡ some d → h' q ≡ some (f d)
  pub miss : (x : Ptr) → x ≢ q → h' x ≡ h x
  pub keeps : (x : Ptr) → map payload (h' x) ≡ map payload (h x)

abbrev pub Exists : Heap → Ptr → Type 0
Exists h q = q ≢ null_ptr → (d : Client) × (h q ≡ some d)

write-Patch :
    (h : Heap) (q : Ptr) (d : Client) (f : Client → Client)
    → ((e : Client) → payload (f e) ≡ payload e)
    → h q ≡ some d
    → Patch h (write h q (some (f d))) q f
write-Patch h q d f same e = record {
  hit = λ d' _ e'. write_self h q _ ∙ cc;
  miss = λ x away. write_other h q x _ away;
  keeps = λ x. write-payload h q d (f d) x e (same d);
}

none-Patch : (h : Heap) (q : Ptr) (f : Client → Client) → q ≡ null_ptr → Patch h h q f
none-Patch h q f e = record {
  hit = λ d nonnull _. absurd (nonnull e);
  miss = λ x _. refl;
  keeps = λ x. refl;
}

module _ (w : World) (p : Ptr) (c : Client) (nonnull : p ≢ null_ptr) (e : w.heap p ≡ some c) where
  pub unlink_next-Patch :
      Exists w.heap c.next
      → (h : Heap) × (unlink_next w p ≡ ok (record w { heap = h }))
        × Patch w.heap h c.next (λ d. record d { previous = c.previous })
  unfolding unlink_next
  unlink_next-Patch there = elim (Bool-cases (c.next == null_ptr)) [
    | inl last ↦ (
      w.heap,
      >>=-ok _ (load-some w p nonnull e) (rw last refl),
      none-Patch w.heap c.next _ (ground arith),
    )
    | inr more ↦
        let (d, at) = there (λ z. ground arith) in
        (
          write w.heap c.next (some (record d { previous = c.previous })),
          >>=-ok _ (load-some w p nonnull e)
              (rw more (set_previous_lem w c.next c.previous (λ z. ground arith) at)),
          write-Patch w.heap c.next d (λ (d : Client). record d { previous = c.previous })
              (λ e. refl) at,
        )
  ]

  pub unlink_previous-Patch :
      Exists w.heap c.previous
      → (h : Heap) × (unlink_previous w p ≡ ok (record w { heap = h }))
        × Patch w.heap h c.previous (λ d. record d { next = c.next })
  unfolding unlink_previous
  unlink_previous-Patch there = elim (Bool-cases (c.previous == null_ptr)) [
    | inl first ↦ (
      w.heap,
      >>=-ok _ (load-some w p nonnull e) (rw first refl),
      none-Patch w.heap c.previous _ (ground arith),
    )
    | inr more ↦
        let (d, at) = there (λ z. ground arith) in
        (
          write w.heap c.previous (some (record d { next = c.next })),
          >>=-ok _ (load-some w p nonnull e)
              (rw more (set_next_lem w c.previous c.next (λ z. ground arith) at)),
          write-Patch w.heap c.previous d (λ (d : Client). record d { next = c.next }) (λ e. refl)
              at,
        )
  ]

module _ (h : Heap) (p : Ptr) (c : Client) (next_away : c.next ≢ p) (previous_away : c.previous ≢ p)
    (apart : c.previous ≢ null_ptr → c.previous ≢ c.next) where
  pub Patch-Unlinked :
      (h1 h2 : Heap)
      → Patch h h1 c.next (λ d. record d { previous = c.previous })
      → Patch h1 h2 c.previous (λ d. record d { next = c.next })
      → Unlinked h (write h2 p none) p c
  Patch-Unlinked h1 h2 patch1 patch2 = record {
    gone = write_self h2 p none;
    before = λ d nonnull at.
        write_other h2 p c.previous none previous_away
        ∙ patch2.hit d nonnull (patch1.miss c.previous (apart nonnull) ∙ at);
    after = λ d nonnull at.
        write_other h2 p c.next none next_away
        ∙ patch2.miss c.next (λ z. apart (λ y. nonnull (z ∙ y)) (sym z))
        ∙ patch1.hit d nonnull at;
    other = λ q a b n. write_other h2 p q none a ∙ patch2.miss q b ∙ patch1.miss q n;
  }

-- What the neighbours of an address in a chain are.
pub Chain-next : (h : Heap) (b : Ptr) (ys : List Ptr) → Chain h b ys → Exists h (head_of ys)
Chain-next h b [] s nonnull = absurd (nonnull refl)
Chain-next h b (y ∷ ys) s nonnull = (s.1.0, s.1.1)

pub Chain-tail :
    (h : Heap) (b : Ptr) (xs : List Ptr) (p : Ptr) (ys : List Ptr)
    → Chain h b (xs ++ p ∷ ys)
    → Chain h p ys
Chain-tail h b [] p ys s = s.2
Chain-tail h b (x ∷ xs) p ys s = Chain-tail h x xs p ys s.2

pub Chain-last :
    (h : Heap) (b : Ptr) (xs : List Ptr) (p : Ptr) (ys : List Ptr)
    → Exists h b
    → Chain h b (xs ++ p ∷ ys)
    → Exists h (last_of b xs)
Chain-last h b [] p ys there s = there
Chain-last h b (x ∷ xs) p ys there s = Chain-last h x xs p ys (λ _. (s.1.0, s.1.1)) s.2

Misses-remove :
    (q : Ptr) (xs : List Ptr) (p : Ptr) (ys : List Ptr)
    → Misses q (xs ++ p ∷ ys)
    → Misses q (xs ++ ys)
Misses-remove q [] p ys m = m.1
Misses-remove q (x ∷ xs) p ys m = (m.0, Misses-remove q xs p ys m.1)

pub Distinct-remove :
    (xs : List Ptr) (p : Ptr) (ys : List Ptr) → Distinct (xs ++ p ∷ ys) → Distinct (xs ++ ys)
Distinct-remove [] p ys d = d.1
Distinct-remove (x ∷ xs) p ys d = (Misses-remove x xs p ys d.0, Distinct-remove xs p ys d.1)

pub Distinct-after :
    (xs : List Ptr) (p : Ptr) (ys : List Ptr) → Distinct (xs ++ p ∷ ys) → Misses p ys
Distinct-after [] p ys d = d.0
Distinct-after (x ∷ xs) p ys d = Distinct-after xs p ys d.1
