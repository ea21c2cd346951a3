-- ===== src/Server/Clients/Updates.antt =====
-- Changing one client in place.
use ens_sysres_proj.Common.{
  ◌≡◌, refl, sym, ap, ◌∙◌, ◌≢◌, inl, inr, some, List, [], ◌∷◌, arith, Bool-cases, ◌==◌,
}
use ens_sysres_proj.Server.{Ptr, null_ptr, Client, Server, Heap, World, save}
use ens_sysres_proj.Server.Clients.Chain.{Chain}
use ens_sysres_proj.Server.Clients.Refines.{Represents, write_self, write_other}

-- The client at the address became that one, and nothing else changed.
pub record Updates (w w' : World) (p : Ptr) (c' : Client) : Type 0 where
  pub here : w'.heap p ≡ some c'
  pub others : (q : Ptr) → q ≢ p → w'.heap q ≡ w.heap q
  pub same : w'.server ≡ w.server

pub Updates-save : (w : World) (p : Ptr) (c : Client) → Updates w (save w p c) p c
Updates-save w p c = record {
  here = write_self w.heap p _;
  others = λ q ne. write_other w.heap p q _ ne;
  same = refl;
}

pub Updates-trans :
    (w w' w'' : World) (p : Ptr) (c c' : Client)
    → Updates w w' p c
    → Updates w' w'' p c'
    → Updates w w'' p c'
Updates-trans w w' w'' p c c' u u' = record {
  here = u'.here;
  others = λ q ne. u'.others q ne ∙ u.others q ne;
  same = u'.same ∙ u.same;
}

-- Every client keeps its links.
abbrev KeepsLinks : Heap → Heap → Type 0
KeepsLinks h h' =
    (p : Ptr) (c : Client)
    → h p ≡ some c
    → (c' : Client) × (h' p ≡ some c') × (c'.previous ≡ c.previous) × (c'.next ≡ c.next)

KeepsLinks-Chain :
    (h h' : Heap) (before : Ptr) (l : List Ptr)
    → KeepsLinks h h'
    → Chain h before l
    → Chain h' before l
KeepsLinks-Chain h h' before [] k s = tt
KeepsLinks-Chain h h' before (p ∷ l) k (nonnull, (c, e, b, n), s) =
    let (c', e', b', n') = k p c e in
    (nonnull, (c', e', b' ∙ b, n' ∙ n), KeepsLinks-Chain h h' p l k s)

-- A client that keeps its links stays where it is.
pub Updates-Represents :
    (w w' : World) (p : Ptr) (c c' : Client) (l : List Ptr)
    → w.heap p ≡ some c
    → Updates w w' p c'
    → c'.previous ≡ c.previous
    → c'.next ≡ c.next
    → Represents w l
    → Represents w' l
Updates-Represents w w' p c c' l e u before after r =
    let k : KeepsLinks w.heap w'.heap = λ q d at. elim (Bool-cases (q == p)) [
      | inl here ↦
          let same : q ≡ p = ground arith in
          let both : some d ≡ some c = sym at ∙ ap w.heap same ∙ e in
          let d_is : d ≡ c = cc in
          (
            c',
            ap w'.heap same ∙ u.here,
            before ∙ ap (λ (x : Client). x.previous) (sym d_is),
            after ∙ ap (λ (x : Client). x.next) (sym d_is),
          )
      | inr away ↦ (d, u.others q (λ z. ground arith) ∙ at, refl, refl)
    ] in
    record {
      first = ap (λ (s : Server). s.clients) u.same ∙ r.first;
      chain = KeepsLinks-Chain w.heap w'.heap null_ptr l k r.chain;
      distinct = r.distinct;
      count = ap (λ (s : Server). s.nb_clients) u.same ∙ r.count;
    }
