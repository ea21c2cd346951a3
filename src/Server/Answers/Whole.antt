-- ===== src/Server/Answers/Whole.antt =====
-- What the calls that write an answer send together.
use ens_sysres_proj.Common.{
  ℕ, ◌-◌, ◌≤◌, ◌<◌, ◌≡◌, ap, ◌∙◌, ◌≢◌, Bool, true, false, Option, none, some, [], Bytes, ok, >>=-ok,
  arith, length, take, take_all, min, if◌then◌else◌,
}
use ens_sysres_proj.Http.Header.Text.{header_text}
use ens_sysres_proj.Server.{waiting_for_request, Ptr, null_ptr, Client, World, save}
use ens_sysres_proj.Server.Clients.Refines.{load-some, write_self}
use ens_sysres_proj.Server.Clients.Updates.{Updates, Updates-save, Updates-trans}
use ens_sysres_proj.Server.Answers.{
  Sent, sent, Opened, write_http_header_to_client, write_rest_to_client, finish_answer,
  write_http_content_to_client, write_loaded_content, write_unloaded_content, write_to_client,
}
use ens_sysres_proj.Server.Answers.Header.{
  IsSending, header_part, with_header_sent, header_is_sent, write_http_header_to_client-sent,
  length-header_part, with_header_sent-IsSending,
}
use ens_sysres_proj.Server.Answers.Total.{write_to_client-ok, finish_answer_waiting}

-- The text of the header of a client's answer.
abbrev pub text_of : Client → Bytes
text_of c = header_text c.http_answer.header

-- The client after a call that takes all that is left of the header.
abbrev pub with_header_done : Client → Client
with_header_done c = record c { answer_header_buffer_offset = length (text_of c) }

module _ (c : Client) (k : ℕ) (s : IsSending c)
    (all_taken : length (text_of c) - c.answer_header_buffer_offset ≤ k) where
  header_done : header_is_sent c k ≡ true
  header_done = ground (arith, s.sent, length-header_part c k)

  header_done-client : with_header_sent c k ≡ with_header_done c
  header_done-client =
      ap (λ (n : ℕ). record c { answer_header_buffer_offset = n })
        (omega (arith, s.sent, length-header_part c k))

  header_done-part :
      header_part c k ≡ take (length (text_of c) - c.answer_header_buffer_offset) (text_of c)
  header_done-part = ap (λ (n : ℕ). take n (text_of c)) (omega arith)

  write_header_done :
      (w : World) (p : Ptr)
      → p ≢ null_ptr
      → w.heap p ≡ some c
      → write_http_header_to_client (sent k) w p
        ≡ ok (
          save w p (with_header_done c),
          take (length (text_of c) - c.answer_header_buffer_offset) (text_of c),
          true,
        )
  write_header_done w p nonnull e =
      write_http_header_to_client-sent w p c k nonnull e s
      ∙ ap (λ (x : Client). ok (save w p x, header_part c k, header_is_sent c k)) header_done-client
      ∙ ap (λ (out : Bytes). ok (save w p (with_header_done c), out, header_is_sent c k))
          header_done-part
      ∙ ap
          (λ (b : Bool). ok (
            save w p (with_header_done c),
            take (length (text_of c) - c.answer_header_buffer_offset) (text_of c),
            b,
          ))
          header_done

-- For a client with the whole header in the buffer and nothing of it sent: if a first call takes
-- fewer bytes than the header has, and a second one takes all that it is given, then the second
-- one sends as many bytes as were left, but from the start of the header, and says that the
-- header is sent.
pub write_http_header_to_client_again :
    (w : World) (p : Ptr) (c : Client) (k j : ℕ)
    → p ≢ null_ptr
    → w.heap p ≡ some c
    → IsSending c
    → c.answer_header_buffer_offset ≡ 0
    → k < length (text_of c)
    → length (text_of c) - k ≤ j
    → (w' w'' : World) × (write_http_header_to_client (sent k) w p
        ≡ ok (w', take k (text_of c), false))
      × (write_http_header_to_client (sent j) w' p
          ≡ ok (w'', take (length (text_of c) - k) (text_of c), true))
write_http_header_to_client_again w p c k j nonnull e s start part rest =
    let c1 = with_header_sent c k in
    let w1 = save w p c1 in
    let n : min (length (text_of c) - c.answer_header_buffer_offset) k ≡ k = omega arith in
    let offset : c1.answer_header_buffer_offset ≡ k = omega (arith, length-header_part c k) in
    let not_done : header_is_sent c k ≡ false = ground (arith, length-header_part c k) in
    (
      w1,
      _,
      write_http_header_to_client-sent w p c k nonnull e s
          ∙ ap (λ (n : ℕ). ok (w1, take n (text_of c), header_is_sent c k)) n
          ∙ ap (λ (b : Bool). ok (w1, take k (text_of c), b)) not_done,
      write_header_done c1 j (with_header_sent-IsSending c k s) (omega arith) w1 p nonnull
            (write_self w.heap p (some c1))
          ∙ ap
              (λ (n : ℕ).
                ok (
                  save w1 p (with_header_done c1),
                  take (length (text_of c) - n) (text_of c),
                  true,
                ))
              offset,
    )

-- A call that takes the whole header, and what follows it.
pub write_to_client_done :
    (w : World) (p : Ptr) (c : Client) (k : ℕ) (o : Opened) (s' : Sent) {w2 w3 : World}
    {body : Bytes} {b : Bool}
    → p ≢ null_ptr
    → w.heap p ≡ some c
    → IsSending c
    → length (text_of c) - c.answer_header_buffer_offset ≤ k
    → write_http_content_to_client o s' (save w p (with_header_done c)) p ≡ ok (w2, body, b)
    → finish_answer b w2 p ≡ ok w3
    → write_to_client (sent k) o s' w p
      ≡ ok (w3, take (length (text_of c) - c.answer_header_buffer_offset) (text_of c), body)
unfolding write_rest_to_client
write_to_client_done w p c k o s' nonnull e s all_taken runs finish =
    write_to_client-ok (sent k) o s' w p (write_header_done c k s all_taken w p nonnull e) runs
      finish

pub take_text :
    (c : Client)
    → c.answer_header_buffer_offset ≡ 0
    → take (length (text_of c) - c.answer_header_buffer_offset) (text_of c) ≡ text_of c
take_text c start = take_all _ (text_of c) (omega arith)

pub write_content_loaded :
    (o : Opened) (s' : Sent) (w : World) (p : Ptr) (c : Client)
    → p ≢ null_ptr
    → w.heap p ≡ some c
    → c.http_answer.content.content_is_loaded ≡ true
    → write_http_content_to_client o s' w p
      ≡ write_loaded_content s' w p c.http_answer.content c.http_answer.content.body
unfolding write_http_content_to_client
write_content_loaded o s' w p c nonnull e loaded =
    let content = c.http_answer.content in
    >>=-ok _ (load-some w p nonnull e) (
      ap
        (λ (b : Bool).
          if b
          then write_loaded_content s' w p content content.body
          else write_unloaded_content o s' w p c content.file_path)
        loaded)

pub write_content_unloaded :
    (o : Opened) (s' : Sent) (w : World) (p : Ptr) (c : Client) {path : Option Bytes}
    → p ≢ null_ptr
    → w.heap p ≡ some c
    → c.http_answer.content.content_is_loaded ≡ false
    → c.http_answer.content.file_path ≡ path
    → write_http_content_to_client o s' w p ≡ write_unloaded_content o s' w p c path
unfolding write_http_content_to_client
write_content_unloaded o s' w p c nonnull e unloaded path_is =
    let content = c.http_answer.content in
    >>=-ok _ (load-some w p nonnull e) (
      ap
        (λ (b : Bool).
          if b
          then write_loaded_content s' w p content content.body
          else write_unloaded_content o s' w p c content.file_path)
        unloaded
      ∙ ap (write_unloaded_content o s' w p c) path_is)

-- For a client that an answer is to be sent to whose content is not in memory and has no file,
-- with the whole header in the buffer and nothing of it sent, where the call for the header takes
-- all of it: what is sent is exactly the text of the header, and then only that client has
-- changed: its header is sent, and it waits for a request.
pub write_to_client-header_text :
    (w : World) (p : Ptr) (c : Client) (k : ℕ) (o : Opened) (s' : Sent)
    → p ≢ null_ptr
    → w.heap p ≡ some c
    → IsSending c
    → c.answer_header_buffer_offset ≡ 0
    → length (text_of c) ≤ k
    → c.http_answer.content.content_is_loaded ≡ false
    → c.http_answer.content.file_path ≡ none
    → (w' : World) × (write_to_client (sent k) o s' w p ≡ ok (w', text_of c, []))
      × Updates w w' p (record (with_header_done c) { state = some waiting_for_request })
unfolding write_unloaded_content
write_to_client-header_text w p c k o s' nonnull e s start all_taken unloaded no_path =
    let c1 = with_header_done c in
    let w1 = save w p c1 in
    let c2 = record c1 { state = some waiting_for_request } in
    (
      save w1 p c2,
      write_to_client_done w p c k o s' nonnull e s (omega arith)
            (write_content_unloaded o s' w1 p c1 nonnull (write_self w.heap p (some c1)) unloaded
              no_path)
            (finish_answer_waiting w1 p c1 nonnull (write_self w.heap p (some c1)))
          ∙ ap (λ (head : Bytes). ok (save w1 p c2, head, [])) (take_text c start),
      Updates-trans w w1 (save w1 p c2) p c1 c2 (Updates-save w p c1) (Updates-save w1 p c2),
    )
