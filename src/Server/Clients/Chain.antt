-- ===== src/Server/Clients/Chain.antt =====
-- A doubly linked list in the heap, by the list of its addresses.
use ens_sysres_proj.Common.{◌≡◌, refl, sym, ap, subst, ◌∙◌, ◌≢◌, none, some, List, [], ◌∷◌, ◌++◌}
use ens_sysres_proj.Server.{Ptr, null_ptr, Client, Heap}

abbrev pub head_of : List Ptr → Ptr
head_of [] = null_ptr
head_of (p ∷ l) = p

-- The last address of a list, or one in front of it.
abbrev pub last_of : Ptr → List Ptr → Ptr
last_of q [] = q
last_of q (p ∷ l) = last_of p l

-- The address is not in the list.
abbrev pub Misses : Ptr → List Ptr → Type 0
Misses p [] = Unit {0}
Misses p (q ∷ l) = (q ≢ p) × Misses p l

abbrev pub Distinct : List Ptr → Type 0
Distinct [] = Unit {0}
Distinct (p ∷ l) = Misses p l × Distinct l

-- A client whose links are these two.
abbrev pub Linked : Heap → Ptr → Ptr → Ptr → Type 0
Linked h p before after = (c : Client) × (h p ≡ some c) × (c.previous ≡ before) × (c.next ≡ after)

abbrev pub Chain : Heap → Ptr → List Ptr → Type 0
Chain h before [] = Unit {0}
Chain h before (p ∷ l) = (p ≢ null_ptr) × Linked h p before (head_of l) × Chain h p l

-- A heap that is the same at the addresses of the list.
abbrev pub Agrees : Heap → Heap → List Ptr → Type 0
Agrees h h' [] = Unit {0}
Agrees h h' (p ∷ l) = (h' p ≡ h p) × Agrees h h' l

pub Agrees-Chain :
    (h h' : Heap) (before : Ptr) (l : List Ptr)
    → Agrees h h' l
    → Chain h before l
    → Chain h' before l
Agrees-Chain h h' before [] a s = tt
Agrees-Chain h h' before (p ∷ l) a (nonnull, (c, e, b, n), s) =
    (nonnull, (c, a.0 ∙ e, b, n), Agrees-Chain h h' p l a.1 s)

-- The heap after `p`, with the links of `c`, was taken out.
pub record Unlinked (h h' : Heap) (p : Ptr) (c : Client) : Type 0 where
  pub gone : h' p ≡ none
  pub before :
      (d : Client)
      → c.previous ≢ null_ptr
      → h c.previous ≡ some d
      → h' c.previous ≡ some (record d { next = c.next })
  pub after :
      (d : Client)
      → c.next ≢ null_ptr
      → h c.next ≡ some d
      → h' c.next ≡ some (record d { previous = c.previous })
  pub other : (q : Ptr) → q ≢ p → q ≢ c.previous → q ≢ c.next → h' q ≡ h q

pub Misses-append :
    (p : Ptr) (xs : List Ptr) (q : Ptr) (ys : List Ptr)
    → Misses p (xs ++ q ∷ ys)
    → Misses p xs × (q ≢ p) × Misses p ys
Misses-append p [] q ys m = (tt, m.0, m.1)
Misses-append p (x ∷ xs) q ys m = let (a, b, c) = Misses-append p xs q ys m.1 in ((m.0, a), b, c)

Misses-last : (p q : Ptr) (l : List Ptr) → q ≢ p → Misses p l → last_of q l ≢ p
Misses-last p q [] h m = h
Misses-last p q (x ∷ l) h m = Misses-last p x l m.0 m.1

pub Misses-head : (x : Ptr) (ys : List Ptr) → x ≢ null_ptr → Misses x ys → head_of ys ≢ x
Misses-head x [] nonnull m = λ e. nonnull (sym e)
Misses-head x (y ∷ ys) nonnull m = m.0

-- The links of an address in the middle.
pub Chain-links :
    (h : Heap) (b : Ptr) (xs : List Ptr) (p : Ptr) (ys : List Ptr)
    → Chain h b (xs ++ p ∷ ys)
    → (p ≢ null_ptr) × Linked h p (last_of b xs) (head_of ys)
Chain-links h b [] p ys s = (s.0, s.1)
Chain-links h b (x ∷ xs) p ys s = Chain-links h x xs p ys s.2

module _ (h h' : Heap) (p : Ptr) (c : Client) (u : Unlinked h h' p c) where
  Agrees-tail : (l : List Ptr) → Misses p l → Misses c.previous l → Misses c.next l → Agrees h h' l
  Agrees-tail [] a b n = tt
  Agrees-tail (q ∷ l) a b n = (u.other q a.0 b.0 n.0, Agrees-tail l a.1 b.1 n.1)

  -- What follows `p`.
  Chain-after :
      (b : Ptr) (ys : List Ptr)
      → c.previous ≡ b
      → c.next ≡ head_of ys
      → Misses p ys
      → Misses b ys
      → Distinct ys
      → Chain h p ys
      → Chain h' b ys
  Chain-after b [] eb en mp mb d s = tt
  Chain-after b (q ∷ ys) eb en mp mb d (nonnull, (e, at, _, n), s) = (
    nonnull,
    (
      record e { previous = b },
      subst (λ (x : Ptr). h' x ≡ some (record e { previous = b })) en
          (subst (λ (y : Ptr). h' c.next ≡ some (record e { previous = y })) eb
            (u.after e (λ z. nonnull (sym en ∙ z)) (ap h en ∙ at))),
      refl,
      n,
    ),
    Agrees-Chain h h' q ys (Agrees-tail ys mp.1 (rw eb mb.1) (rw en d.0)) s,
  )

  -- The addresses that are left form a chain.
  pub Chain-unlinked :
      (b : Ptr) (xs ys : List Ptr)
      → c.previous ≡ last_of b xs
      → c.next ≡ head_of ys
      → Misses b (xs ++ p ∷ ys)
      → Distinct (xs ++ p ∷ ys)
      → Chain h b (xs ++ p ∷ ys)
      → Chain h' b (xs ++ ys)
  Chain-unlinked b [] ys eb en mb d s = Chain-after b ys eb en d.0 mb.1 d.1 s.2
  Chain-unlinked b (x ∷ []) ys eb en mb d (nonnull, (e, at, pr, _), s) = (
    nonnull,
    (
      record e { next = head_of ys },
      subst (λ (q : Ptr). h' q ≡ some (record e { next = head_of ys })) eb
          (subst (λ (y : Ptr). h' c.previous ≡ some (record e { next = y })) en
            (u.before e (λ z. nonnull (sym eb ∙ z)) (ap h eb ∙ at))),
      pr,
      refl,
    ),
    Chain-after x ys eb en d.1.0 d.0.1 d.1.1 s.2,
  )
  Chain-unlinked b (x ∷ y ∷ xs) ys eb en mb d (nonnull, (e, at, pr, nx), s) =
      let parts = Misses-append x (y ∷ xs) p ys d.0 in
      let same : h' x ≡ h x =
        u.other x (λ z. parts.1 (sym z))
          (λ z. Misses-last x y xs parts.0.0 parts.0.1 (sym eb ∙ sym z))
          (λ z. Misses-head x ys nonnull parts.2 (sym en ∙ sym z)) in
      (nonnull, (e, same ∙ at, pr, nx), Chain-unlinked x (y ∷ xs) ys eb en d.0 d.1 s)
