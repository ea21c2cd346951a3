-- ===== src/Server/Answers/Total.antt =====
-- Every way in which writing to a client can end.
use ens_sysres_proj.Common.{
  ℕ, ◌<◌, ◌^◌, ◌≡◌, refl, ap, sym, ◌∙◌, ◌≢◌, ◌⊎◌, inl, inr, Bool, true, false, ◌&&◌, none, some,
  List, [], ◌∷◌, ◌++◌, Bytes, Outcome, ok, >>=-ok, length, ◌==◌, Bool-cases, subst,
}
use ens_sysres_proj.Server.{waiting_for_request, Ptr, null_ptr, Client, World, save}
use ens_sysres_proj.Server.Clients.Refines.{Represents, load-some, write_self}
use ens_sysres_proj.Server.Clients.Updates.{
  Updates, Updates-save, Updates-trans, Updates-Represents,
}
use ens_sysres_proj.Server.Answers.{
  Sent, sent, reset, failed, Opened, write_http_header_to_client, write_rest_to_client,
  finish_answer, write_to_client,
}
use ens_sysres_proj.Server.Answers.Header.{
  IsSending, header_part, with_header_sent, header_is_sent, write_http_header_to_client-sent,
  with_header_sent-IsSending,
}
use ens_sysres_proj.Server.Answers.Content.{
  Leaves, Leaves-save, remove_and_fail-Leaves, write_http_content_to_client-ContentWritten,
  Represents-nonnull,
}

-- What writing leaves of a client as it was.
pub record Kept (c c' : Client) : Type 0 where
  pub fd : c'.fd ≡ c.fd
  pub previous : c'.previous ≡ c.previous
  pub next : c'.next ≡ c.next
  pub request_buffer : c'.request_buffer ≡ c.request_buffer
  pub request_buffer_length : c'.request_buffer_length ≡ c.request_buffer_length
  pub request_buffer_offset : c'.request_buffer_offset ≡ c.request_buffer_offset
  pub http_request : c'.http_request ≡ c.http_request
  pub answer_header_buffer_length : c'.answer_header_buffer_length ≡ c.answer_header_buffer_length
  pub answer_header_buffer : c'.answer_header_buffer ≡ c.answer_header_buffer
  pub http_answer : c'.http_answer ≡ c.http_answer

-- The client stays, with its answer, and waits for a request or not.
pub record Stays (w w' : World) (p : Ptr) (c c' : Client) : Type 0 where
  pub updates : Updates w w' p c'
  pub kept : Kept c c'
  pub sending : IsSending c'
  pub state : (c'.state ≡ c.state) ⊎ (c'.state ≡ some waiting_for_request)

abbrev pub WrittenTo :
    World → List Ptr → Ptr → List Ptr → Client → Outcome (World × Bytes × Bytes) → Type 0
WrittenTo w xs p ys c m =
    (w' : World) × (head body : Bytes) × (m ≡ ok (w', head, body))
    × (((c' : Client) × Stays w w' p c c') ⊎ Leaves w w' xs p ys)

pub write_to_client-ok :
    (h : Sent) (o : Opened) (s : Sent) (w : World) (p : Ptr) {w1 w2 w3 : World} {head body : Bytes}
    {is_head is_body : Bool}
    → write_http_header_to_client h w p ≡ ok (w1, head, is_head)
    → write_rest_to_client is_head o s w1 p ≡ ok (w2, body, is_body)
    → finish_answer (is_head && is_body) w2 p ≡ ok w3
    → write_to_client h o s w p ≡ ok (w3, head, body)
unfolding write_to_client
write_to_client-ok h o s w p e e' e'' = >>=-ok _ e (>>=-ok _ e' (>>=-ok _ e'' refl))

finish_answer_not : (b : Bool) (w : World) (p : Ptr) → finish_answer (b && false) w p ≡ ok w
unfolding finish_answer
finish_answer_not true w p = refl
finish_answer_not false w p = refl

pub finish_answer_waiting :
    (w : World) (p : Ptr) (c : Client)
    → p ≢ null_ptr
    → w.heap p ≡ some c
    → finish_answer true w p ≡ ok (save w p (record c { state = some waiting_for_request }))
unfolding finish_answer
finish_answer_waiting w p c nonnull e = >>=-ok _ (load-some w p nonnull e) refl

module _ (w : World) (xs : List Ptr) (p : Ptr) (ys : List Ptr) (c : Client)
    (r : Represents w (xs ++ p ∷ ys)) (small : length (xs ++ p ∷ ys) < 2 ^ 31)
    (e : w.heap p ≡ some c) (s : IsSending c) where
  header_sent-Stays : (k : ℕ) → Stays w (save w p (with_header_sent c k)) p c (with_header_sent c k)
  header_sent-Stays k = record {
    updates = Updates-save w p (with_header_sent c k);
    kept = record {
      fd = refl;
      previous = refl;
      next = refl;
      request_buffer = refl;
      request_buffer_length = refl;
      request_buffer_offset = refl;
      http_request = refl;
      answer_header_buffer_length = refl;
      answer_header_buffer = refl;
      http_answer = refl;
    };
    sending = with_header_sent-IsSending c k s;
    state = inl refl;
  }

  waiting-Stays :
      (w1 : World) (c1 : Client)
      → Stays w w1 p c c1
      → Stays w
          (save w1 p (record c1 { state = some waiting_for_request }))
          p
          c
          (record c1 { state = some waiting_for_request })
  waiting-Stays w1 c1 stays =
      let c2 = record c1 { state = some waiting_for_request } in
      record {
        updates = Updates-trans w w1 (save w1 p c2) p c1 c2 stays.updates (Updates-save w1 p c2);
        kept = record {
          fd = stays.kept.fd;
          previous = stays.kept.previous;
          next = stays.kept.next;
          request_buffer = stays.kept.request_buffer;
          request_buffer_length = stays.kept.request_buffer_length;
          request_buffer_offset = stays.kept.request_buffer_offset;
          http_request = stays.kept.http_request;
          answer_header_buffer_length = stays.kept.answer_header_buffer_length;
          answer_header_buffer = stays.kept.answer_header_buffer;
          http_answer = stays.kept.http_answer;
        };
        sending = record {
          header = record {
            tail = stays.sending.header.tail;
            starts = stays.sending.header.starts;
            length_header = stays.sending.header.length_header;
            size = stays.sending.header.size;
          };
          sent = stays.sending.sent;
          content = stays.sending.content;
        };
        state = inr refl;
      }

  module _ (k : ℕ) (o : Opened) (s' : Sent) where
    abbrev Sends : Type 0
    Sends = WrittenTo w xs p ys c (write_to_client (sent k) o s' w p)

    content_not_sent :
        (w2 : World) (out : Bytes)
        → write_rest_to_client (header_is_sent c k) o s' (save w p (with_header_sent c k)) p
          ≡ ok (w2, out, false)
        → ((w2 ≡ save w p (with_header_sent c k))
            ⊎ Leaves (save w p (with_header_sent c k)) w2 xs p ys)
        → Sends
    content_not_sent w2 out runs rest = (
      w2,
      header_part c k,
      out,
      write_to_client-ok (sent k) o s' w p
          (write_http_header_to_client-sent w p c k (Represents-nonnull w xs p ys r) e s) runs
          (finish_answer_not (header_is_sent c k) w2 p),
      elim rest [
        | inl same ↦ inl (
          with_header_sent c k,
          subst (λ (x : World). Stays w x p c (with_header_sent c k)) (sym same)
              (header_sent-Stays k),
        )
        | inr leaves ↦ inr (Leaves-save w w2 xs p ys (with_header_sent c k) leaves)
      ],
    )

    content_sent :
        (w2 : World) (out : Bytes)
        → header_is_sent c k ≡ true
        → write_rest_to_client (header_is_sent c k) o s' (save w p (with_header_sent c k)) p
          ≡ ok (w2, out, true)
        → (w2 ≡ save w p (with_header_sent c k))
        → Sends
    content_sent w2 out full runs same =
        let c1 = with_header_sent c k in
        let w1 = save w p c1 in
        let nonnull = Represents-nonnull w xs p ys r in
        (
          _,
          header_part c k,
          out,
          write_to_client-ok (sent k) o s' w p
              (write_http_header_to_client-sent w p c k nonnull e s) runs
              (ap (λ (b : Bool). finish_answer (b && true) w2 p) full
                ∙ ap (λ (x : World). finish_answer true x p) same
                ∙ finish_answer_waiting w1 p c1 nonnull (write_self w.heap p (some c1))),
          inl (
            record c1 { state = some waiting_for_request },
            waiting-Stays w1 c1 (header_sent-Stays k),
          ),
        )

    header_sent-WrittenTo : o ≢ none → s' ≢ failed → Sends
    unfolding write_rest_to_client
    header_sent-WrittenTo opened ns = elim (Bool-cases (header_is_sent c k)) [
      | inr part ↦
          content_not_sent _ _
            (ap (λ (b : Bool). write_rest_to_client b o s' (save w p (with_header_sent c k)) p)
              part)
            (inl refl)
      | inl full ↦
          let c1 = with_header_sent c k in
          let w1 = save w p c1 in
          let r1 =
            Updates-Represents w w1 p c c1 (xs ++ p ∷ ys) e (Updates-save w p c1) refl refl r in
          let all_sent : (c1.answer_header_buffer_offset == c1.answer_header_buffer_length) ≡ true =
            ap (λ (n : ℕ). c1.answer_header_buffer_offset == n) s.header.length_header ∙ full in
          let (w2, out, b, runs, rest) =
            write_http_content_to_client-ContentWritten w1 xs p ys r1 small c1
              (write_self w.heap p (some c1)) all_sent o s' s.content opened ns in
          content_written w2 out b (ap (λ (b : Bool). write_rest_to_client b o s' w1 p) full ∙ runs)
            full rest
    ]
      where
        content_written :
            (w2 : World) (out : Bytes) (b : Bool)
            → write_rest_to_client (header_is_sent c k) o s' (save w p (with_header_sent c k)) p
              ≡ ok (w2, out, b)
            → header_is_sent c k ≡ true
            → ((w2 ≡ save w p (with_header_sent c k))
                ⊎ ((b ≡ false) × Leaves (save w p (with_header_sent c k)) w2 xs p ys))
            → Sends
        content_written w2 out true runs full (inl same) = content_sent w2 out full runs same
        content_written w2 out true runs full (inr l) = absurd (cc)
        content_written w2 out false runs full (inl same) = content_not_sent w2 out runs (inl same)
        content_written w2 out false runs full (inr l) = content_not_sent w2 out runs (inr l.1)

  reset-WrittenTo :
      (o : Opened) (s' : Sent) → WrittenTo w xs p ys c (write_to_client reset o s' w p)
  unfolding write_http_header_to_client write_rest_to_client
  reset-WrittenTo o s' =
      let (w', runs, leaves) = remove_and_fail-Leaves w xs p ys r small in
      (
        w',
        [],
        [],
        write_to_client-ok reset o s' w p runs refl (finish_answer_not false w' p),
        inr leaves,
      )

-- For a client of the server that is being answered, with the whole header of its answer in the
-- buffer and a body as long as it says, where a file that is to be sent can be opened and no
-- write or sendfile fails but with ECONNRESET: writing to it returns. Either only that client
-- changes, by its state, which may become that of waiting for a request, and by how much of its
-- header was sent, which is no more than the header, while its request, its answer and both of
-- its buffers stay; or the client is removed from the list and freed, while the others keep all
-- but their links.
pub write_to_client-WrittenTo :
    (w : World) (xs : List Ptr) (p : Ptr) (ys : List Ptr) (c : Client) (h : Sent) (o : Opened)
    (s : Sent)
    → Represents w (xs ++ p ∷ ys)
    → length (xs ++ p ∷ ys) < 2 ^ 31
    → w.heap p ≡ some c
    → IsSending c
    → h ≢ failed
    → o ≢ none
    → s ≢ failed
    → WrittenTo w xs p ys c (write_to_client h o s w p)
write_to_client-WrittenTo w xs p ys c (sent k) o s r small e is nh opened ns =
    header_sent-WrittenTo w xs p ys c r small e is k o s opened ns
write_to_client-WrittenTo w xs p ys c reset o s r small e is nh opened ns =
    reset-WrittenTo w xs p ys c r small e is o s
write_to_client-WrittenTo w xs p ys c failed o s r small e is nh opened ns = absurd (nh refl)
