-- ===== src/Server/Rounds/Valid.antt =====
-- What holds of a server and its clients between two steps of the loop.
use mathlib.Core.Option.{map}
use ens_sysres_proj.Common.{
  ◌≤◌, ◌<◌, ◌^◌, ◌≡◌, ◌≢◌, refl, ap, sym, subst, ◌∙◌, inl, inr, true, Option, none, some, List, [],
  ◌∷◌, ◌++◌, arith, length, length-append, Bool-cases, ◌==◌,
}
use ens_sysres_proj.Cache.{FileCache, Folder}
use ens_sysres_proj.Cache.Sizes.{IsBuilt}
use ens_sysres_proj.Server.{answering, Ptr, null_ptr, Client, ServParameters, Server, World}
use ens_sysres_proj.Server.Clients.Chain.{Misses}
use ens_sysres_proj.Server.Clients.Refines.{Represents, payload}
use ens_sysres_proj.Server.Clients.Updates.{Updates, Updates-Represents}
use ens_sysres_proj.Server.Requests.Receive.{IsReading}
use ens_sysres_proj.Server.Answers.Header.{IsSending}
use ens_sysres_proj.Server.Answers.Content.{Leaves}

-- A client between two steps of the loop.
pub record IsClient (parameters : ServParameters) (c : Client) : Type 0 where
  pub reading : IsReading parameters c
  pub header_size : length c.answer_header_buffer ≡ 2048
  pub sending : c.state ≡ some answering → IsSending c

-- A started server with these clients.
pub record IsServer (cache : FileCache) (root : Folder) (w : World) (l : List Ptr) : Type 0 where
  pub clients : Represents w l
  -- No other client is allocated.
  pub only : (q : Ptr) → Misses q l → w.heap q ≡ none
  pub valid : (p : Ptr) (c : Client) → w.heap p ≡ some c → IsClient w.server.parameters c
  pub started : w.server.is_started ≡ true
  pub cache_is : w.server.cache ≡ some cache
  pub has_root : cache.root ≡ some root
  pub built : IsBuilt root
  pub header_size : w.server.parameters.answer_header_buffer_size ≡ 2048
  pub few : length l ≤ w.server.parameters.max_nb_clients
  pub max_int : w.server.parameters.max_nb_clients < 2 ^ 31

-- The links of a client do not matter.
relinked-IsClient :
    (parameters : ServParameters) (c : Client) (before after : Ptr)
    → IsClient parameters c
    → IsClient parameters (record c { previous = before; next = after })
relinked-IsClient parameters c before after v = record {
  reading = record {
    size_int = v.reading.size_int;
    size = v.reading.size;
    received = v.reading.received;
    offset = v.reading.offset;
  };
  header_size = v.header_size;
  sending = λ e.
      let s = v.sending e in
      record {
        header = record {
          tail = s.header.tail;
          starts = s.header.starts;
          length_header = s.header.length_header;
          size = s.header.size;
        };
        sent = s.sent;
        content = s.content;
      };
}

pub kept-IsClient :
    (parameters : ServParameters) (o : Option Client) (c' : Client)
    → map payload (some c') ≡ map payload o
    → ((c : Client) → o ≡ some c → IsClient parameters c)
    → IsClient parameters c'
kept-IsClient parameters none c' e v = absurd (cc)
kept-IsClient parameters (some c) c' e v =
    let same : payload c ≡ payload c' = cc in
    relinked-IsClient parameters (payload c') c'.previous c'.next (
      subst (IsClient parameters) same
        (relinked-IsClient parameters c null_ptr null_ptr (v c refl)))

some-none : {c : Client} → some c ≡ none → ⊥
some-none e = cc

pub map-none : {o : Option Client} → map payload o ≡ none → o ≡ none
map-none {o = none} e = refl
map-none {o = some c} e = cc

Misses-insert :
    (q : Ptr) (xs : List Ptr) (p : Ptr) (ys : List Ptr)
    → p ≢ q
    → Misses q (xs ++ ys)
    → Misses q (xs ++ p ∷ ys)
Misses-insert q [] p ys ne m = (ne, m)
Misses-insert q (x ∷ xs) p ys ne m = (m.0, Misses-insert q xs p ys ne m.1)

-- One client was changed in place.
pub Updates-IsServer :
    (cache : FileCache) (root : Folder) (w w' : World) (p : Ptr) (c c' : Client) (l : List Ptr)
    → w.heap p ≡ some c
    → Updates w w' p c'
    → c'.previous ≡ c.previous
    → c'.next ≡ c.next
    → IsClient w.server.parameters c'
    → IsServer cache root w l
    → IsServer cache root w' l
Updates-IsServer cache root w w' p c c' l e u before after v r =
    let parameters_same : w'.server.parameters ≡ w.server.parameters =
      ap (λ (s : Server). s.parameters) u.same in
    record {
      clients = Updates-Represents w w' p c c' l e u before after r.clients;
      only = λ q m.
          let gone = r.only q m in
          u.others q (λ same. some-none (sym e ∙ ap w.heap (sym same) ∙ gone)) ∙ gone;
      valid = λ q d at.
          subst (λ (x : ServParameters). IsClient x d) (sym parameters_same)
            (elim (Bool-cases (q == p)) [
              | inl here ↦
                  let same : q ≡ p = ground arith in
                  let both : some d ≡ some c' = sym at ∙ ap w'.heap same ∙ u.here in
                  let d_is : d ≡ c' = cc in subst (IsClient w.server.parameters) (sym d_is) v
              | inr away ↦ r.valid q d (sym (u.others q (λ z. ground arith)) ∙ at)
            ]);
      started = ap (λ (s : Server). s.is_started) u.same ∙ r.started;
      cache_is = ap (λ (s : Server). s.cache) u.same ∙ r.cache_is;
      has_root = r.has_root;
      built = r.built;
      header_size =
          ap (λ (x : ServParameters). x.answer_header_buffer_size) parameters_same ∙ r.header_size;
      few = omega (arith, r.few, ap (λ (x : ServParameters). x.max_nb_clients) parameters_same);
      max_int =
          omega (arith, r.max_int, ap (λ (x : ServParameters). x.max_nb_clients) parameters_same);
    }

-- One client left.
pub Leaves-IsServer :
    (cache : FileCache) (root : Folder) (w w' : World) (xs : List Ptr) (p : Ptr) (ys : List Ptr)
    → Leaves w w' xs p ys
    → IsServer cache root w (xs ++ p ∷ ys)
    → IsServer cache root w' (xs ++ ys)
Leaves-IsServer cache root w w' xs p ys leaves r =
    let parameters_same : w'.server.parameters ≡ w.server.parameters =
      ap (λ (s : Server). s.parameters) leaves.same in
    record {
      clients = leaves.clients;
      only = λ q m. elim (Bool-cases (q == p)) [
        | inl here ↦ let same : q ≡ p = ground arith in ap w'.heap same ∙ leaves.gone
        | inr away ↦
            let gone = r.only q (Misses-insert q xs p ys (λ z. ground arith) m) in
            map-none (leaves.others q (λ z. ground arith) ∙ ap (map payload) gone)
      ];
      valid = λ q d at.
          subst (λ (x : ServParameters). IsClient x d) (sym parameters_same)
            (elim (Bool-cases (q == p)) [
              | inl here ↦
                  let same : q ≡ p = ground arith in
                  let both : some d ≡ none = sym at ∙ ap w'.heap same ∙ leaves.gone in absurd (cc)
              | inr away ↦
                  kept-IsClient w.server.parameters (w.heap q) d
                    (ap (map payload) (sym at) ∙ leaves.others q (λ z. ground arith)) (r.valid q)
            ]);
      started = ap (λ (s : Server). s.is_started) leaves.same ∙ r.started;
      cache_is = ap (λ (s : Server). s.cache) leaves.same ∙ r.cache_is;
      has_root = r.has_root;
      built = r.built;
      header_size =
          ap (λ (x : ServParameters). x.answer_header_buffer_size) parameters_same ∙ r.header_size;
      few = omega (
        arith,
        r.few,
        ap (λ (x : ServParameters). x.max_nb_clients) parameters_same,
        length-append xs ys,
        length-append xs (p ∷ ys),
      );
      max_int =
          omega (arith, r.max_int, ap (λ (x : ServParameters). x.max_nb_clients) parameters_same);
    }
