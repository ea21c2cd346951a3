-- ===== src/Server/Requests/Process.antt =====
-- What processing the request of a client makes of the client.
use ens_sysres_proj.Common.{
  ℕ, ◌≤◌, ◌≡◌, refl, ap, sym, ◌∙◌, ◌⊎◌, inl, inr, Bool, true, false, some, ◌++◌, Bytes, ok, >>=-ok,
  >>=-eq-ok, length, Bool-cases, ltb, not_ltb→le,
}
use ens_sysres_proj.Cache.{FileCache, Folder}
use ens_sysres_proj.Cache.Sizes.{IsBuilt}
use ens_sysres_proj.Http.{HttpMessage}
use ens_sysres_proj.Http.Parse.{
  buffer_contains_full_http_header, http_header_min_length, parse_http_request,
}
use ens_sysres_proj.Http.Parse.Complete.{buffer_contains_full_http_header-Searches}
use ens_sysres_proj.Http.Parse.Safe.{IsTerminated}
use ens_sysres_proj.Http.Answer.Laws.{answer_request}
use ens_sysres_proj.Http.Answer.Safe.{answer_request-IsAnswer}
use ens_sysres_proj.Http.Answer.Fits.{answer_request-HasShortFields}
use ens_sysres_proj.Http.Answer.Content.{IsContent, answer_request-IsContent}
use ens_sysres_proj.Http.Header.{fill_http_answer_header_buffer}
use ens_sysres_proj.Http.Header.Text.{header_text}
use ens_sysres_proj.Http.Header.Bounds.{fill_http_answer_header_buffer-fits}
use ens_sysres_proj.Server.{
  waiting_for_request, processing_request, answering, Client, ServParameters,
}
use ens_sysres_proj.Server.Requests.{answer_client, process_client}

-- The buffer for the header of the answer holds the whole text of the header.
pub record HoldsHeader (c : Client) : Type 0 where
  pub tail : Bytes
  pub starts : c.answer_header_buffer ≡ header_text c.http_answer.header ++ tail
  pub length_header : c.answer_header_buffer_length ≡ length (header_text c.http_answer.header)
  pub size : length c.answer_header_buffer ≡ 2048

-- A client that nothing of its answer was sent to.
pub record IsAnswering (date : Bytes) (cache : FileCache) (c : Client) : Type 0 where
  pub state : c.state ≡ some answering
  pub answered : answer_request date cache c.request_buffer ≡ ok c.http_answer
  pub header : HoldsHeader c
  pub offset : c.answer_header_buffer_offset ≡ 0
  pub content : IsContent c.http_answer.content

-- What holds of the server's parameters, its cache and the date.
pub record IsServing (date : Bytes) (parameters : ServParameters) (cache : FileCache)
    (root : Folder) : Type 0 where
  pub has_root : cache.root ≡ some root
  pub built : IsBuilt root
  pub date_short : length date ≤ 255
  pub header_size : parameters.answer_header_buffer_size ≡ 2048

-- The client with its request answered.
abbrev pub answered : Client → HttpMessage → HttpMessage → Bytes → Client
answered c request answer buffer = record c {
  http_request = request;
  http_answer = answer;
  answer_header_buffer = buffer;
  answer_header_buffer_length = length (header_text answer.header);
  answer_header_buffer_offset = 0;
  state = some answering;
}

search_returns :
    (buffer : Bytes) (n : ℕ)
    → n ≤ length buffer
    → (buffer_contains_full_http_header buffer 0 n ≡ ok false)
      ⊎ (buffer_contains_full_http_header buffer 0 n ≡ ok true)
unfolding buffer_contains_full_http_header
search_returns buffer n fits = elim (Bool-cases (ltb n http_header_min_length)) [
  | inl small ↦ inl (rw small refl)
  | inr long ↦
      elim (buffer_contains_full_http_header-Searches buffer n
        (not_ltb→le n http_header_min_length long) fits) [ inl h ↦ inr h.0 | inr h ↦ inl h.0 ]
]

module _ (date : Bytes) (parameters : ServParameters) (cache : FileCache) (c : Client) where
  answer_client-answered :
      (answer : HttpMessage) (buffer : Bytes)
      → answer_request date cache c.request_buffer ≡ ok answer
      → fill_http_answer_header_buffer answer c.answer_header_buffer
          parameters.answer_header_buffer_size
        ≡ ok (buffer, length (header_text answer.header))
      → (request : HttpMessage) × (answer_client date parameters (some cache) c
          ≡ ok (answered c request answer buffer))
  unfolding answer_client
  answer_client-answered answer buffer made filled =
      let ((request, code), parsed, produced) =
        >>=-eq-ok (parse_http_request c.request_buffer) _ made in
      (_, >>=-ok _ parsed (>>=-ok _ produced (>>=-ok _ filled refl)))

  answer_client-IsAnswering :
      (root : Folder)
      → IsServing date parameters cache root
      → length c.answer_header_buffer ≡ 2048
      → IsTerminated c.request_buffer
      → (request answer : HttpMessage) × (buffer : Bytes) × (answer_client date parameters
            (some cache)
            c
          ≡ ok (answered c request answer buffer))
        × IsAnswering date cache (answered c request answer buffer)
  answer_client-IsAnswering root s size t =
      let (answer, made, _) =
        answer_request-IsAnswer date cache root c.request_buffer s.has_root t in
      let short =
        answer_request-HasShortFields date cache root c.request_buffer s.has_root s.built t
          s.date_short made in
      let (buffer, tail, filled, starts, kept) =
        fill_http_answer_header_buffer-fits answer c.answer_header_buffer size short in
      let (request, runs) = answer_client-answered answer buffer made (
        ap (fill_http_answer_header_buffer answer c.answer_header_buffer) (s.header_size ∙ sym size)
        ∙ filled) in
      (
        request,
        answer,
        buffer,
        runs,
        record {
          state = refl;
          answered = made;
          header = record {
            tail = tail;
            starts = starts;
            length_header = refl;
            size = kept ∙ size;
          };
          offset = refl;
          content =
              answer_request-IsContent date cache root c.request_buffer s.has_root s.built t made;
        },
      )

-- A read, and what the test for a full header says, decide the next state.
pub process_client-IsAnswering :
    (date : Bytes) (parameters : ServParameters) (cache : FileCache) (root : Folder) (c : Client)
    → IsServing date parameters cache root
    → length c.answer_header_buffer ≡ 2048
    → IsTerminated c.request_buffer
    → c.request_buffer_offset ≡ 0
    → c.request_buffer_length ≤ length c.request_buffer
    → let n = c.request_buffer_length in
      ((buffer_contains_full_http_header c.request_buffer 0 n ≡ ok false)
        × (process_client date parameters (some cache) c
            ≡ ok (record c { state = some waiting_for_request })))
      ⊎ ((buffer_contains_full_http_header c.request_buffer 0 n ≡ ok true)
          × (request answer : HttpMessage) × (buffer : Bytes) × (process_client date parameters
                (some cache)
                c
              ≡ ok (answered c request answer buffer))
          × IsAnswering date cache (answered c request answer buffer))
unfolding process_client
process_client-IsAnswering date parameters cache root c s size t start fits =
    let n = c.request_buffer_length in
    let at_start : (b : Bool)
        → buffer_contains_full_http_header c.request_buffer 0 n ≡ ok b
        → buffer_contains_full_http_header c.request_buffer c.request_buffer_offset n ≡ ok b =
      λ b e. ap (λ (o : ℕ). buffer_contains_full_http_header c.request_buffer o n) start ∙ e in
    elim (search_returns c.request_buffer n fits) [
      | inl e ↦ inl (e, >>=-ok _ (at_start false e) refl)
      | inr e ↦
          let (request, answer, buffer, runs, is) =
            answer_client-IsAnswering date parameters cache c root s size t in
          inr (e, request, answer, buffer, >>=-ok _ (at_start true e) runs, is)
    ]

-- The client that processing the request of `c` leaves.
pub data Processed (date : Bytes) (cache : FileCache) (c : Client) : Client → Type 0 where
  incomplete :
      buffer_contains_full_http_header c.request_buffer 0 c.request_buffer_length ≡ ok false
      → Processed date cache c (record c { state = some waiting_for_request })
  complete :
      (request answer : HttpMessage) (buffer : Bytes)
      → buffer_contains_full_http_header c.request_buffer 0 c.request_buffer_length ≡ ok true
      → IsAnswering date cache (answered c request answer buffer)
      → Processed date cache c (answered c request answer buffer)

-- Before it processes the request, the server sets the state.
pub process_client_in_state :
    (date : Bytes) (parameters : ServParameters) (cache : FileCache) (root : Folder) (c : Client)
    → IsServing date parameters cache root
    → length c.answer_header_buffer ≡ 2048
    → IsTerminated c.request_buffer
    → c.request_buffer_offset ≡ 0
    → c.request_buffer_length ≤ length c.request_buffer
    → (c' : Client) × (process_client date parameters
          (some cache)
          (record c { state = some processing_request })
        ≡ ok c')
      × Processed date cache c c'
process_client_in_state date parameters cache root c s size t start fits =
    elim (process_client-IsAnswering date parameters cache root
      (record c { state = some processing_request }) s size t start fits) [
        | inl h ↦ (_, h.1, incomplete h.0)
        | inr h ↦
            let (full, request, answer, buffer, runs, is) = h in
            (_, runs, complete request answer buffer full is)
      ]
