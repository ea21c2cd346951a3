-- ===== src/Server/Answers/Header.antt =====
-- Sending the header of an answer.
use ens_sysres_proj.Common.{
  ℕ, zero, suc, ◌+◌, ◌-◌, ◌≤◌, ◌<◌, ◌^◌, ◌≡◌, refl, ap, ◌∙◌, ◌≢◌, Bool, some, [], ◌∷◌, ◌++◌, Bytes,
  ok, in_bounds, >>=-ok, arith, length, length-append, take, length-take, min, le→leb, ◌==◌,
  add_int,
}
use ens_sysres_proj.Http.Header.{room}
use ens_sysres_proj.Http.Header.Text.{header_text}
use ens_sysres_proj.Http.Answer.Content.{IsContent}
use ens_sysres_proj.Server.{Ptr, null_ptr, Client, World, save}
use ens_sysres_proj.Server.Clients.Refines.{load-some}
use ens_sysres_proj.Server.Requests.Process.{HoldsHeader}
use ens_sysres_proj.Server.Answers.{sent, send_bytes, write_http_header_to_client}

-- An answer of which a part of the header may have been sent.
pub record IsSending (c : Client) : Type 0 where
  pub header : HoldsHeader c
  pub sent : c.answer_header_buffer_offset ≤ length (header_text c.http_answer.header)
  pub content : IsContent c.http_answer.content

-- The bytes that a call sends: from the start of the text, up to the number that is left.
abbrev pub header_part : Client → ℕ → Bytes
header_part c k =
    let text = header_text c.http_answer.header in
    take (min (length text - c.answer_header_buffer_offset) k) text

abbrev pub with_header_sent : Client → ℕ → Client
with_header_sent c k = record c {
  answer_header_buffer_offset = c.answer_header_buffer_offset + length (header_part c k);
}

pub room_left : (max nb : ℕ) → nb ≤ max → max < 2 ^ 31 → room max nb ≡ max - nb
room_left max nb le small = ground arith

take-append_le : (n : ℕ) (xs ys : Bytes) → n ≤ length xs → take n (xs ++ ys) ≡ take n xs
take-append_le zero xs ys h = refl
take-append_le (suc n) [] ys h = absurd (omega arith)
take-append_le (suc n) (x ∷ xs) ys h = ap (◌∷◌ x) (take-append_le n xs ys (omega arith))

-- A `write` of the header that sends something.
send_header_part :
    (c : Client) (k : ℕ)
    → IsSending c
    → send_bytes c.answer_header_buffer
        (room c.answer_header_buffer_length c.answer_header_buffer_offset)
        k
      ≡ ok (header_part c k)
send_header_part c k s =
    let text = header_text c.http_answer.header in
    let h = s.header in
    let left = length text - c.answer_header_buffer_offset in
    let total : length c.answer_header_buffer ≡ length text + length h.tail =
      ap length h.starts ∙ length-append text h.tail in
    let n : room c.answer_header_buffer_length c.answer_header_buffer_offset ≡ left =
      ap (λ (m : ℕ). room m c.answer_header_buffer_offset) h.length_header
      ∙ room_left (length text) c.answer_header_buffer_offset s.sent (omega (arith, h.size)) in
    ap (λ (n : ℕ). send_bytes c.answer_header_buffer n k) n
    ∙ >>=-ok _ (ap in_bounds (le→leb left (length c.answer_header_buffer) (omega arith))) (
        ap (λ (b : Bytes). ok (take (min left k) b)) h.starts
        ∙ ap ok (take-append_le (min left k) text h.tail (omega arith)))

-- The offset behind the part that is sent now.
pub length-header_part :
    (c : Client) (k : ℕ)
    → length (header_part c k)
      ≡ min (length (header_text c.http_answer.header) - c.answer_header_buffer_offset) k
length-header_part c k =
    let text = header_text c.http_answer.header in
    length-take (min (length text - c.answer_header_buffer_offset) k) text ∙ omega arith

abbrev pub header_is_sent : Client → ℕ → Bool
header_is_sent c k =
    (c.answer_header_buffer_offset + length (header_part c k))
    == length (header_text c.http_answer.header)

pub write_http_header_to_client-sent :
    (w : World) (p : Ptr) (c : Client) (k : ℕ)
    → p ≢ null_ptr
    → w.heap p ≡ some c
    → IsSending c
    → write_http_header_to_client (sent k) w p
      ≡ ok (save w p (with_header_sent c k), header_part c k, header_is_sent c k)
unfolding write_http_header_to_client
write_http_header_to_client-sent w p c k nonnull e s =
    let text = header_text c.http_answer.header in
    let total : length c.answer_header_buffer ≡ length text + length s.header.tail =
      ap length s.header.starts ∙ length-append text s.header.tail in
    let sum : add_int c.answer_header_buffer_offset (length (header_part c k))
        ≡ c.answer_header_buffer_offset + length (header_part c k) =
      omega (arith, s.sent, length-header_part c k, s.header.size) in
    >>=-ok _ (load-some w p nonnull e)
      (>>=-ok _ (send_header_part c k s) (rw (sum, s.header.length_header) refl))

pub with_header_sent-IsSending :
    (c : Client) (k : ℕ) → IsSending c → IsSending (with_header_sent c k)
with_header_sent-IsSending c k s = record {
  header = record {
    tail = s.header.tail;
    starts = s.header.starts;
    length_header = s.header.length_header;
    size = s.header.size;
  };
  sent = omega (arith, s.sent, length-header_part c k);
  content = s.content;
}
