-- ===== src/Server/Conversation.antt =====
-- A request that is read from a client, and the bytes that the client is sent for it.
pub mod Sends
use ens_sysres_proj.Common.{
  ℕ, suc, ◌+◌, ◌-◌, ◌≤◌, ◌<◌, ◌^◌, ◌≡◌, refl, ap, sym, subst, ◌∙◌, ◌≢◌, Bool, true, false, Option,
  some, List, [], ◌∷◌, ◌++◌, append_assoc, Bytes, codes, ok, ok-injective, >>=-ok, arith, length,
  length-append, length-take, length-drop, take, drop, take_all, get_elem?, Option-cases, inl, inr,
}
use ens_sysres_proj.Cache.{
  File, Folder, FileCache, live, loaded_raw, loaded_compressed, not_loaded, max_path_length,
}
use ens_sysres_proj.Cache.Disk.{Disk}
use ens_sysres_proj.Cache.Build.{build_cache_from_disk}
use ens_sysres_proj.Cache.Find.{find_file_in_cache}
use ens_sysres_proj.Cache.Find.Components.{components, collapse, find_components}
use ens_sysres_proj.Cache.Mirror.{Reaches, HasPlainNames}
use ens_sysres_proj.Cache.Mirror.Requests.{
  Serves, copy, missing, answer_request-Serves, find_file_in_cache-Serves,
}
use ens_sysres_proj.Cache.Mirror.Stores.{Stores, IsCopy-Stores}
use ens_sysres_proj.Cache.Content.Loops.{HasBytes}
use ens_sysres_proj.Http.{HttpMessage, http_get, http_v1_1}
use ens_sysres_proj.Http.Parse.{http_header_min_length, buffer_contains_full_http_header}
use ens_sysres_proj.Http.Parse.Complete.{BlankLine, buffer_contains_full_http_header_at_end}
use ens_sysres_proj.Http.Parse.RoundTrip.{
  IsWord, method_name, after_target, version_name, request_line,
}
use ens_sysres_proj.Http.Answer.Expected.{answer_for_file}
use ens_sysres_proj.Http.Answer.Laws.{answer_request}
use ens_sysres_proj.Http.Header.Text.{header_text}
use ens_sysres_proj.Server.{Ptr, null_ptr, Client, World}
use ens_sysres_proj.Server.Clients.Updates.{Updates}
use ens_sysres_proj.Server.Requests.{read_from_client}
use ens_sysres_proj.Server.Requests.Receive.{with_chunk}
use ens_sysres_proj.Server.Requests.Process.{
  IsServing, IsAnswering, Processed, incomplete, complete,
}
use ens_sysres_proj.Server.Requests.Reads.{read_from_client-Processed}
use ens_sysres_proj.Server.Answers.{sent, Opened, write_to_client}
use ens_sysres_proj.Server.Answers.Bodies.{write_to_client_body}
use ens_sysres_proj.Server.Rounds.Good.{IsAnswering-IsSending}
use ens_sysres_proj.Server.Rounds.Valid.{IsServer}

abbrev pub blank_line : Bytes
blank_line = b'\r' ∷ b'\n' ∷ b'\r' ∷ b'\n' ∷ []

get_elem?-append :
    (front : Bytes) (k : ℕ) (xs : Bytes)
    → get_elem? (front ++ xs) (length front + k) ≡ get_elem? xs k
get_elem?-append [] k xs = ap (get_elem? xs) (omega arith)
get_elem?-append (c ∷ cs) k xs =
    ap (get_elem? (c ∷ (cs ++ xs))) (suc-sum (length cs) k) ∙ get_elem?-append cs k xs
  where
    suc-sum : (n k : ℕ) → suc n + k ≡ suc (n + k)
    suc-sum n k = omega arith

-- A blank line that bytes end with, in a buffer that goes on behind them.
ends-BlankLine : (front rest : Bytes) → BlankLine (front ++ (blank_line ++ rest)) (length front)
ends-BlankLine front rest = record {
  first =
      ap (get_elem? (front ++ (blank_line ++ rest))) {x = length front} {y = length front + 0}
        (omega arith)
      ∙ get_elem?-append front 0 (blank_line ++ rest);
  second = get_elem?-append front 1 (blank_line ++ rest);
  third = get_elem?-append front 2 (blank_line ++ rest);
  fourth = get_elem?-append front 3 (blank_line ++ rest);
}

-- Bytes that end with a blank line are found to hold a whole header.
search-ends :
    (front rest : Bytes)
    → http_header_min_length ≤ length (front ++ blank_line)
    → buffer_contains_full_http_header
        ((front ++ blank_line) ++ rest)
        0
        (length (front ++ blank_line))
      ≡ ok true
search-ends front rest long =
    buffer_contains_full_http_header_at_end ((front ++ blank_line) ++ rest) (length front)
      (length (front ++ blank_line)) long (omega (arith, length-append (front ++ blank_line) rest))
      (omega (arith, length-append front blank_line))
      (subst (λ (b : Bytes). BlankLine b (length front)) (sym (append_assoc front blank_line rest))
        (ends-BlankLine front rest))

-- What stands behind a request line belongs to the rest of it.
pub request_line-append :
    (a : ℕ) (target : Bytes) (b : ℕ) (rest more : Bytes)
    → request_line http_get a target b http_v1_1 rest ++ more
      ≡ request_line http_get a target b http_v1_1 (rest ++ more)
request_line-append a target b rest more = simp (append_assoc)

-- A client that a request was read from.
pub record HasRead (date : Bytes) (cache : FileCache) (w w' : World) (p : Ptr) (c c' : Client)
    (request : Bytes) : Type 0 where
  pub updates : Updates w w' p c'
  pub answering_is : IsAnswering date cache c'
  pub rest : Bytes
  pub buffer : c'.request_buffer ≡ request ++ 0 ∷ rest

module _ (date : Bytes) (cache : FileCache) (root : Folder) (w : World) (l : List Ptr) (p : Ptr)
    (c : Client) (r : IsServer cache root w l) (nonnull : p ≢ null_ptr) (at : w.heap p ≡ some c)
    (date_short : length date ≤ 255) (idle : c.request_buffer_length ≡ 0) (front : Bytes)
    (long : http_header_min_length ≤ length (front ++ blank_line))
    (fits : length (front ++ blank_line) + 2 ≤ w.server.parameters.request_buffer_size) where
  abbrev pub request : Bytes
  request = front ++ blank_line

  Processed-HasRead :
      (w' : World) (c' : Client)
      → Updates w w' p c'
      → Processed date cache (with_chunk c request) c'
      → HasRead date cache w w' p c c' request
  Processed-HasRead w' c' u (incomplete h) =
      let rest = 0 ∷ drop (suc (length request)) c.request_buffer in
      let none_before : c.request_buffer_length + length request ≡ length request = omega arith in
      let found = search-ends front rest long in
      cc (sym h ∙ ap (buffer_contains_full_http_header (request ++ rest) 0) none_before ∙ found)
  Processed-HasRead w' c' u (complete q m buffer h is) = record {
    updates = u;
    answering_is = is;
    rest = drop (suc (length request)) c.request_buffer;
    buffer = refl;
  }

  pub read_from_client-HasRead :
      (w' : World) × (c' : Client) × (read_from_client date (some request) w p ≡ ok w')
      × HasRead date cache w w' p c c' request
  read_from_client-HasRead =
      let v = r.valid p c at in
      let left = w.server.parameters.request_buffer_size - c.request_buffer_length - 1 in
      let whole : take left request ≡ request = take_all left request (omega arith) in
      let serving : IsServing date w.server.parameters cache root = record {
        has_root = r.has_root;
        built = r.built;
        date_short = date_short;
        header_size = r.header_size;
      } in
      let (w', c', runs, u, is) =
        read_from_client-Processed date cache root w p c request nonnull at r.cache_is serving
          v.reading v.header_size (omega (arith, ap length whole))
          (omega (arith, ap length whole)) in
      (
        w',
        c',
        runs,
        Processed-HasRead w' c' u
            (subst (λ (b : Bytes). Processed date cache (with_chunk c b) c') whole is),
      )
