-- ===== src/Server/Clients/Refines.antt =====
-- Adding and removing clients against the list of their addresses.
use mathlib.Core.Option.{map}
use ens_sysres_proj.Common.{
  ◌<◌, ◌^◌, ◌≡◌, refl, sym, ap, ◌∙◌, ◌≢◌, Bool, true, false, inl, inr, Option, some, List, [], ◌∷◌,
  ok, >>=-ok, arith, length, Bool-cases, ◌==◌,
}
use ens_sysres_proj.Server.{Ptr, null_ptr, Client, Heap, Server, World, write, load, save}
use ens_sysres_proj.Server.Clients.{
  set_previous, set_next, set_clients, link_client, add_client_to_server,
}
use ens_sysres_proj.Server.Clients.Chain.{head_of, Misses, Distinct, Chain, Agrees, Agrees-Chain}

-- The server's clients are the allocated ones of this list, in this order.
pub record Represents (w : World) (l : List Ptr) : Type 0 where
  pub first : w.server.clients ≡ head_of l
  pub chain : Chain w.heap null_ptr l
  pub distinct : Distinct l
  pub count : w.server.nb_clients ≡ length l

-- A client without its links.
abbrev pub payload : Client → Client
payload c = record c { previous = null_ptr; next = null_ptr }

-- The client at the address is as before, up to its links.
abbrev pub Keeps : World → World → Ptr → Type 0
Keeps w w' q = map payload (w'.heap q) ≡ map payload (w.heap q)

-- What the server keeps while its list of clients changes.
abbrev pub settings : World → Server
settings w = record w.server { clients = null_ptr; nb_clients = 0 }

pub load-some :
    (w : World) (p : Ptr) {c : Client} → p ≢ null_ptr → w.heap p ≡ some c → load w p ≡ ok c
unfolding load
load-some w p nonnull e = ground (arith, e)

pub set_previous_lem :
    (w : World) (p q : Ptr) {c : Client}
    → p ≢ null_ptr
    → w.heap p ≡ some c
    → set_previous w p q ≡ ok (save w p (record c { previous = q }))
unfolding set_previous
set_previous_lem w p q nonnull e = rw (load-some w p nonnull e)

pub set_next_lem :
    (w : World) (p q : Ptr) {c : Client}
    → p ≢ null_ptr
    → w.heap p ≡ some c
    → set_next w p q ≡ ok (save w p (record c { next = q }))
unfolding set_next
set_next_lem w p q nonnull e = rw (load-some w p nonnull e)

pub write_self : (h : Heap) (p : Ptr) (c : Option Client) → write h p c p ≡ c
write_self h p c = ground arith

pub write_other : (h : Heap) (p q : Ptr) (c : Option Client) → q ≢ p → write h p c q ≡ h q
write_other h p q c n = ground arith

pub write-payload :
    (h : Heap) (p : Ptr) (c c' : Client) (x : Ptr)
    → h p ≡ some c
    → payload c' ≡ payload c
    → map payload (write h p (some c') x) ≡ map payload (h x)
write-payload h p c c' x e same = elim (Bool-cases (x == p)) [
  | inl at ↦
      let here : x ≡ p = ground arith in
      ap (λ (y : Ptr). map payload (write h p (some c') y)) here
      ∙ ap (map payload) (write_self h p (some c'))
      ∙ ap some same
      ∙ sym (ap (map payload) (ap h here ∙ e))
  | inr away ↦ ap (map payload) (write_other h p x (some c') (λ z. ground arith))
]

-- The heap after the links of a new first client are set.
abbrev linked_heap : Heap → Ptr → Client → Ptr → Client → Heap
linked_heap h p c q d =
    write
      (write (write h p (some (record c { previous = null_ptr }))) p
        (some (record c { previous = null_ptr; next = q })))
      q (some (record d { previous = p }))

link_first :
    (w : World) (p : Ptr) (c : Client)
    → p ≢ null_ptr
    → w.heap p ≡ some c
    → link_client true w p
      ≡ ok (record (set_clients w p) {
        heap =
            write
              (write w.heap p (some (record c { previous = null_ptr })))
              p
              (some (record c { previous = null_ptr; next = null_ptr }));
      })
unfolding link_client
link_first w p c nonnull e = >>=-ok _ (set_previous_lem (set_clients w p) p null_ptr nonnull e) (
    set_next_lem (save (set_clients w p) p (record c { previous = null_ptr })) p null_ptr nonnull
      (write_self w.heap p _))

link_more :
    (w : World) (p q : Ptr) (c d : Client)
    → p ≢ null_ptr
    → q ≢ null_ptr
    → q ≢ p
    → w.heap p ≡ some c
    → w.heap q ≡ some d
    → w.server.clients ≡ q
    → link_client false w p ≡ ok (record (set_clients w p) { heap = linked_heap w.heap p c q d })
unfolding link_client
link_more w p q c d nonnull nonnull' ne e e' first =
    let w1 = save w p (record c { previous = null_ptr }) in
    let w2 = save w1 p (record c { previous = null_ptr; next = q }) in
    let there : w2.heap q ≡ some d =
      write_other w1.heap p q _ ne ∙ write_other w.heap p q _ ne ∙ e' in
    >>=-ok _ (set_previous_lem w p null_ptr nonnull e) (
      >>=-ok _
        (set_next_lem w1 p w.server.clients nonnull (write_self w.heap p _)
          ∙ ap (λ (x : Ptr). ok (save w1 p (record c { previous = null_ptr; next = x }))) first)
        (>>=-ok _
          (ap (λ (x : Ptr). set_previous w2 x p) first ∙ set_previous_lem w2 q p nonnull' there)
          refl))

pub Agrees-write :
    (h : Heap) (p : Ptr) (c : Option Client) (l : List Ptr) → Misses p l → Agrees h (write h p c) l
Agrees-write h p c [] m = tt
Agrees-write h p c (q ∷ l) m = (write_other h p q c m.0, Agrees-write h p c l m.1)

Agrees-then : (h h' h'' : Heap) (l : List Ptr) → Agrees h h' l → Agrees h' h'' l → Agrees h h'' l
Agrees-then h h' h'' [] a b = tt
Agrees-then h h' h'' (p ∷ l) a b = (b.0 ∙ a.0, Agrees-then h h' h'' l a.1 b.1)

-- The chain with `p` in front of `q`.
module _ (h : Heap) (p : Ptr) (c : Client) (q : Ptr) (d : Client) (ne : q ≢ p) where
  linked_heap-Chain :
      (l : List Ptr)
      → p ≢ null_ptr
      → q ≢ null_ptr
      → Misses p l
      → Misses q l
      → d.next ≡ head_of l
      → Chain h q l
      → Chain (linked_heap h p c q d) null_ptr (p ∷ q ∷ l)
  linked_heap-Chain l nonnull nonnull' mp mq n rest =
      let h1 = write h p (some (record c { previous = null_ptr })) in
      let h2 = write h1 p (some (record c { previous = null_ptr; next = q })) in
      let h3 = linked_heap h p c q d in
      (
        nonnull,
        (
          record c { previous = null_ptr; next = q },
          write_other h2 q p _ (λ z. ne (sym z)) ∙ write_self h1 p _,
          refl,
          refl,
        ),
        (
          nonnull',
          (record d { previous = p }, write_self h2 q _, refl, n),
          Agrees-Chain h h3 q l
              (Agrees-then h h2 h3 l
                (Agrees-then h h1 h2 l (Agrees-write h p _ l mp) (Agrees-write h1 p _ l mp))
                (Agrees-write h2 q _ l mq))
              rest,
        ),
      )

  linked_heap-payload :
      (x : Ptr)
      → h p ≡ some c
      → h q ≡ some d
      → map payload (linked_heap h p c q d x) ≡ map payload (h x)
  linked_heap-payload x e e' =
      let h1 = write h p (some (record c { previous = null_ptr })) in
      let h2 = write h1 p (some (record c { previous = null_ptr; next = q })) in
      write-payload h2 q d (record d { previous = p }) x
        (write_other h1 p q _ ne ∙ write_other h p q _ ne ∙ e') refl
      ∙ write-payload h1 p (record c { previous = null_ptr })
          (record c { previous = null_ptr; next = q }) x (write_self h p _) refl
      ∙ write-payload h p c (record c { previous = null_ptr }) x e refl

module _ (w : World) (p : Ptr) (c : Client) (nonnull : p ≢ null_ptr) (e : w.heap p ≡ some c) where
  add_first-Represents :
      Represents w []
      → (w' : World) × (add_client_to_server w p ≡ ok w')
        × Represents w' (p ∷ [])
        × ((q : Ptr) → Keeps w w' q)
        × (settings w' ≡ settings w)
  unfolding add_client_to_server
  add_first-Represents r =
      let only : (w.server.nb_clients == 0) ≡ true = ground (arith, r.count) in
      (
        _,
        >>=-ok _ (ap (λ (b : Bool). link_client b w p) only ∙ link_first w p c nonnull e) refl,
        record {
          first = refl;
          chain = (
            nonnull,
            (
              _,
              write_self (write w.heap p (some (record c { previous = null_ptr }))) p _,
              refl,
              refl,
            ),
            tt,
          );
          distinct = (tt, tt);
          count = ground (arith, r.count);
        },
        λ q. ground (arith, e),
        refl,
      )

  add_more-Represents :
      (q : Ptr) (l : List Ptr)
      → Represents w (q ∷ l)
      → Misses p (q ∷ l)
      → length l < 2 ^ 31
      → (w' : World) × (add_client_to_server w p ≡ ok w')
        × Represents w' (p ∷ q ∷ l)
        × ((q : Ptr) → Keeps w w' q)
        × (settings w' ≡ settings w)
  unfolding add_client_to_server
  add_more-Represents q l r m small =
      let more : (w.server.nb_clients == 0) ≡ false = ground (arith, r.count) in
      let (q_nonnull, (d, at, _, n), rest) = r.chain in
      (
        _,
        >>=-ok _
            (ap (λ (b : Bool). link_client b w p) more
              ∙ link_more w p q c d nonnull q_nonnull m.0 e at r.first)
            refl,
        record {
          first = refl;
          chain = linked_heap-Chain w.heap p c q d m.0 l nonnull q_nonnull m.1 r.distinct.0 n rest;
          distinct = (m, r.distinct);
          count = ground (arith, r.count);
        },
        λ x. linked_heap-payload w.heap p c q d m.0 x e at,
        refl,
      )

-- For a server whose clients are the addresses of a list, with fewer than 2 ^ 31 of them, and a
-- client that is allocated at an address which is not NULL and not in the list: adding the client
-- returns, and the clients of the server are then that address and behind it the list, linked
-- both ways and counted. Every client keeps all but its links, and the server keeps all but its
-- first client and its count.
pub add_client_to_server-Represents :
    (w : World) (l : List Ptr) (p : Ptr) (c : Client)
    → Represents w l
    → p ≢ null_ptr
    → Misses p l
    → w.heap p ≡ some c
    → length l < 2 ^ 31
    → (w' : World) × (add_client_to_server w p ≡ ok w')
      × Represents w' (p ∷ l)
      × ((q : Ptr) → Keeps w w' q)
      × (settings w' ≡ settings w)
add_client_to_server-Represents w [] p c r nonnull m e small =
    add_first-Represents w p c nonnull e r
add_client_to_server-Represents w (q ∷ l) p c r nonnull m e small =
    add_more-Represents w p c nonnull e q l r m (omega arith)
