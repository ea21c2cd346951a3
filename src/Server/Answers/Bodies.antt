-- ===== src/Server/Answers/Bodies.antt =====
-- Sending the bodies of answers: those in memory, and those in files.
use ens_sysres_proj.Common.{
  ℕ, zero, suc, ◌-◌, ◌≤◌, ◌<◌, ◌^◌, ◌≡◌, refl, ap, sym, ◌∙◌, ◌≢◌, Bool, true, false, some, List, [],
  ◌∷◌, ◌++◌, Bytes, Outcome, ok, ◌>>=◌, in_bounds, >>=-ok, arith, length, take, drop, take_all, min,
  le→leb, ◌==◌,
}
use ens_sysres_proj.Cache.{live}
use ens_sysres_proj.Http.{HttpContent}
use ens_sysres_proj.Http.Header.{room}
use ens_sysres_proj.Http.Answer.Content.{IsContent}
use ens_sysres_proj.Server.{Ptr, null_ptr, Client, World, save}
use ens_sysres_proj.Server.Clients.Refines.{Represents, write_self}
use ens_sysres_proj.Server.Clients.Updates.{Updates-save, Updates-Represents}
use ens_sysres_proj.Server.Answers.{
  Sent, sent, Opened, send_bytes, finish_answer, write_loaded_content, write_unloaded_content,
  write_to_client,
}
use ens_sysres_proj.Server.Answers.Header.{IsSending, room_left}
use ens_sysres_proj.Server.Answers.Content.{
  Leaves, Leaves-save, after_sendfile-Leaves, Represents-nonnull,
}
use ens_sysres_proj.Server.Answers.Whole.{
  text_of, with_header_done, take_text, write_to_client_done, write_content_loaded,
  write_content_unloaded,
}

-- The client, behind that many calls that all end like this, and what they sent.
unfoldable pub write_rounds :
    ℕ → (header : Sent) → Opened → (body : Sent) → World → Ptr → Outcome (World × Bytes)
unfolding write_to_client
write_rounds zero h o s w p = ok (w, [])
write_rounds (suc n) h o s w p = do
  (w, head, body) ← write_to_client h o s w p
  (w, rest) ← write_rounds n h o s w p
  ok (w, head ++ (body ++ rest))

abbrev pub copies : ℕ → Bytes → Bytes
copies zero bytes = []
copies (suc n) bytes = bytes ++ copies n bytes

module _ (bytes : Bytes) (j : ℕ) (fits : length bytes ≤ j) where
  send_all_bytes :
      (content : HttpContent)
      → IsContent content
      → content.body ≡ live bytes
      → send_bytes bytes (room content.length content.offset) j ≡ ok bytes
  send_all_bytes content is body =
      let n : room content.length content.offset ≡ length bytes =
        room_left content.length content.offset (omega (arith, is.offset)) is.length_int
        ∙ omega (arith, is.offset, is.filled bytes body) in
      ap (λ (n : ℕ). send_bytes bytes n j) n
      ∙ >>=-ok _ (ap in_bounds (le→leb (length bytes) (length bytes) (omega arith)))
          (ap ok (take_all (min (length bytes) j) bytes (omega arith)))

  -- The whole body is sent, and the call says that it was not.
  write_body :
      (w : World) (p : Ptr) (content : HttpContent)
      → IsContent content
      → content.body ≡ live bytes
      → 1 ≤ length bytes
      → write_loaded_content (sent j) w p content content.body ≡ ok (w, bytes, false)
  unfolding write_loaded_content
  write_body w p content is body some_bytes =
      let not_end : (content.offset == content.length) ≡ false =
        ground (arith, is.offset, is.filled bytes body) in
      ap (write_loaded_content (sent j) w p content) body
      ∙ >>=-ok _ (send_all_bytes content is body) (ap (λ (b : Bool). ok (w, bytes, b)) not_end)

  module _ (o : Opened) (k : ℕ) (some_bytes : 1 ≤ length bytes) where
    pub write_to_client_body :
        (w : World) (p : Ptr) (c : Client)
        → p ≢ null_ptr
        → w.heap p ≡ some c
        → IsSending c
        → length (text_of c) - c.answer_header_buffer_offset ≤ k
        → c.http_answer.content.content_is_loaded ≡ true
        → c.http_answer.content.body ≡ live bytes
        → write_to_client (sent k) o (sent j) w p
          ≡ ok (
            save w p (with_header_done c),
            take (length (text_of c) - c.answer_header_buffer_offset) (text_of c),
            bytes,
          )
    unfolding finish_answer
    write_to_client_body w p c nonnull e s all_taken loaded body =
        let c1 = with_header_done c in
        let w1 = save w p c1 in
        write_to_client_done w p c k o (sent j) nonnull e s all_taken
          (write_content_loaded o (sent j) w1 p c1 nonnull (write_self w.heap p (some c1)) loaded
            ∙ write_body w1 p c1.http_answer.content s.content body some_bytes)
          refl

    with_header_done-IsSending : (c : Client) → IsSending c → IsSending (with_header_done c)
    with_header_done-IsSending c s = record {
      header = record {
        tail = s.header.tail;
        starts = s.header.starts;
        length_header = s.header.length_header;
        size = s.header.size;
      };
      sent = omega arith;
      content = s.content;
    }

    write_rounds-again :
        (n : ℕ) (w : World) (p : Ptr) (c : Client)
        → p ≢ null_ptr
        → w.heap p ≡ some c
        → IsSending c
        → c.answer_header_buffer_offset ≡ length (text_of c)
        → c.http_answer.content.content_is_loaded ≡ true
        → c.http_answer.content.body ≡ live bytes
        → (w' : World) × (write_rounds n (sent k) o (sent j) w p ≡ ok (w', copies n bytes))
          × (w'.heap p ≡ some c)
    unfolding write_rounds
    write_rounds-again zero w p c nonnull e s full loaded body = (w, refl, e)
    write_rounds-again (suc n) w p c nonnull e s full loaded body =
        let c1 = with_header_done c in
        let same : c1 ≡ c =
          ap (λ (n : ℕ). record c { answer_header_buffer_offset = n }) (sym full) in
        let (w', runs, at) =
          write_rounds-again n (save w p c) p c nonnull (write_self w.heap p (some c)) s full loaded
            body in
        let none_left : length (text_of c) - c.answer_header_buffer_offset ≡ 0 = omega arith in
        let step : write_to_client (sent k) o (sent j) w p ≡ ok (save w p c, [], bytes) =
          write_to_client_body w p c nonnull e s (omega arith) loaded body
          ∙ ap
              (λ (x : Client). ok (
                save w p x,
                take (length (text_of c) - c.answer_header_buffer_offset) (text_of c),
                bytes,
              ))
              same
          ∙ ap (λ (n : ℕ). ok (save w p c, take n (text_of c), bytes)) none_left in
        (w', >>=-ok _ step (>>=-ok _ runs refl), at)

-- For a client that an answer with a body of at least one byte in memory is to be sent to, with
-- the whole header in the buffer and nothing of it sent, where every call takes all that it is
-- given: after any number of calls, one or more, the client was sent the header and as many
-- copies of the body as there were calls, and is as before but for its header, which is sent. It
-- never waits for a request again.
pub write_rounds-copies :
    (n : ℕ) (w : World) (p : Ptr) (c : Client) (bytes : Bytes) (k j : ℕ) (o : Opened)
    → p ≢ null_ptr
    → w.heap p ≡ some c
    → IsSending c
    → c.answer_header_buffer_offset ≡ 0
    → c.http_answer.content.content_is_loaded ≡ true
    → c.http_answer.content.body ≡ live bytes
    → 1 ≤ length bytes
    → length (text_of c) ≤ k
    → length bytes ≤ j
    → (w' : World) × (write_rounds (suc n) (sent k) o (sent j) w p
        ≡ ok (w', text_of c ++ copies (suc n) bytes))
      × (w'.heap p ≡ some (with_header_done c))
unfolding write_rounds
write_rounds-copies n w p c bytes k j o nonnull e s start loaded body some_bytes all_head all_body =
    let c1 = with_header_done c in
    let w1 = save w p c1 in
    let (w', runs, at) =
      write_rounds-again bytes j all_body o k some_bytes n w1 p c1 nonnull
        (write_self w.heap p (some c1))
        (with_header_done-IsSending bytes j all_body o k some_bytes c s) refl loaded body in
    (
      w',
      >>=-ok _
          (write_to_client_body bytes j all_body o k some_bytes w p c nonnull e s (omega arith)
              loaded body
            ∙ ap (λ (head : Bytes). ok (w1, head, bytes)) (take_text c start))
          (>>=-ok _ runs refl),
      at,
    )

-- For a client of the server that an answer with a body in a file is to be sent to, with the
-- whole header in the buffer and nothing of it sent, where the file can be opened and the call
-- for the header takes all of it: whatever part of the file the single call of sendfile takes,
-- the client is sent the header and that part, and is removed from the list and freed.
pub write_to_client-Leaves :
    (w : World) (xs : List Ptr) (p : Ptr) (ys : List Ptr) (c : Client) (k j : ℕ) (fd : ℕ)
    (bytes path : Bytes)
    → Represents w (xs ++ p ∷ ys)
    → length (xs ++ p ∷ ys) < 2 ^ 31
    → w.heap p ≡ some c
    → IsSending c
    → c.answer_header_buffer_offset ≡ 0
    → c.http_answer.content.content_is_loaded ≡ false
    → c.http_answer.content.file_path ≡ some path
    → length (text_of c) ≤ k
    → (w' : World) × (write_to_client (sent k) (some (fd, bytes)) (sent j) w p
        ≡ ok (w', text_of c, take (min c.http_answer.content.length j) bytes))
      × Leaves w w' xs p ys
unfolding write_unloaded_content finish_answer
write_to_client-Leaves w xs p ys c k j fd bytes path r small e s start unloaded has_path all_head =
    let c1 = with_header_done c in
    let w1 = save w p c1 in
    let content = c.http_answer.content in
    let nonnull = Represents-nonnull w xs p ys r in
    let r1 = Updates-Represents w w1 p c c1 (xs ++ p ∷ ys) e (Updates-save w p c1) refl refl r in
    let full : (c1.answer_header_buffer_offset == c1.answer_header_buffer_length) ≡ true =
      ground (arith, s.header.length_header) in
    let out = take (min (room content.length content.offset) j) (drop content.file_offset bytes) in
    let out_is : out ≡ take (min content.length j) bytes =
      ap (λ (n : ℕ). take (min n j) (drop content.file_offset bytes))
        (room_left content.length content.offset (omega (arith, s.content.offset))
            s.content.length_int
          ∙ omega (arith, s.content.offset))
      ∙ ap (λ (n : ℕ). take (min content.length j) (drop n bytes)) s.content.file_offset in
    let (w', runs, leaves) =
      after_sendfile-Leaves w1 xs p ys r1 small c1 (write_self w.heap p (some c1)) full fd out in
    (
      w',
      write_to_client_done w p c k (some (fd, bytes)) (sent j) nonnull e s (omega arith)
            (write_content_unloaded (some (fd, bytes)) (sent j) w1 p c1 nonnull
                (write_self w.heap p (some c1)) unloaded has_path
              ∙ runs)
            refl
          ∙ ap (λ (head : Bytes). ok (w', head, out)) (take_text c start)
          ∙ ap (λ (body : Bytes). ok (w', text_of c, body)) out_is,
      Leaves-save w w' xs p ys c1 leaves,
    )
