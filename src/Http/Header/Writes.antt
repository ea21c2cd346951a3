-- ===== src/Http/Header/Writes.antt =====
-- The header that is written, as one text.
use ens_sysres_proj.Common.{
  ℕ, ◌+◌, ◌-◌, ◌≤◌, ◌<◌, ◌≡◌, refl, subst, inl, inr, Option, none, some, [], ◌++◌, append_assoc,
  Bytes, ok, arith, length, length-append, Bool-cases, is_negative, add_int, sub_int, ◌^◌,
}
use ens_sysres_proj.Http.{HttpHeader, HttpMessage}
use ens_sysres_proj.Http.Header.{
  crlf, append_text, first_line, write_http_answer_first_line, write_field, write_content_length,
  write_http_option_fields, fill_http_answer_header_buffer,
}
use ens_sysres_proj.Http.Header.Text.{field_text, content_length_text, option_text, header_text}
use ens_sysres_proj.Http.Header.Appends.{
  Holds, Appends, append_text-Appends, Appends-then, Appends-none,
}

module _ (size base max : ℕ) (e : max ≡ size - base) (b : base ≤ size) (small : size < 2 ^ 31) where
  write_field-Appends :
      (name : Bytes) (value : Option Bytes)
      → Appends size base (write_field name value base max) (field_text name value)
  unfolding write_field field_text
  write_field-Appends name none = Appends-none size base
  write_field-Appends name (some value) = append_text-Appends size base max _ e b small

  write_content_length-Appends :
      (n : ℕ) → Appends size base (write_content_length n base max) (content_length_text n)
  unfolding write_content_length content_length_text
  write_content_length-Appends n = elim (Bool-cases (is_negative n)) [
    | inl e ↦ rw e (Appends-none size base)
    | inr e' ↦ rw e' (append_text-Appends size base max _ e b small)
  ]

  write_http_option_fields-Appends :
      (h : HttpHeader) (buffer : Bytes) (text : Bytes)
      → Holds size base (buffer, 0) text
      → length text + length (option_text h) < size
      → (s' : Bytes × ℕ) × (write_http_option_fields h base max buffer ≡ ok s')
        × Holds size base s' (text ++ option_text h)
  unfolding write_http_option_fields option_text
  write_http_option_fields-Appends h buffer =
      Appends-then size base _ _ _ _ (write_content_length-Appends h.content_length)
        (Appends-then size base _ _ _ _ (write_field-Appends _ h.content_type) (
          Appends-then size base _ _ _ _ (write_field-Appends _ h.content_encoding) (
            Appends-then size base _ _ _ _ (write_field-Appends _ h.date)
              (write_field-Appends _ h.server))))
        (buffer, 0)

fill-ok :
    (answer : HttpMessage) (buffer buffer1 buffer2 buffer3 : Bytes) (n k l size : ℕ)
    → append_text 0 (length buffer) (first_line answer.header) (buffer, 0) ≡ ok (buffer1, n)
    → write_http_option_fields answer.header n (sub_int (length buffer) n) buffer1 ≡ ok (buffer2, k)
    → append_text 0 (length buffer) crlf (buffer2, add_int n k) ≡ ok (buffer3, l)
    → l ≡ size
    → fill_http_answer_header_buffer answer buffer (length buffer) ≡ ok (buffer3, size)
unfolding fill_http_answer_header_buffer write_http_answer_first_line
fill-ok answer buffer buffer1 buffer2 buffer3 n k l size first options last e =
    rw (first, options, last, e)

module _ (answer : HttpMessage) (buffer : Bytes) (small : length buffer < 2 ^ 31)
    (lt : length (header_text answer.header) < length buffer) where
  -- What the whole call ends with.
  abbrev Filled : Type 0
  Filled =
      (buffer' : Bytes) × (tail : Bytes) × (fill_http_answer_header_buffer answer buffer
          (length buffer)
        ≡ ok (buffer', length (header_text answer.header)))
      × (buffer' ≡ header_text answer.header ++ tail)
      × (length buffer' ≡ length buffer)

  size_parts :
      length (first_line answer.header) + (length (option_text answer.header) + length crlf)
      < length buffer
  unfolding header_text
  size_parts = omega (
    arith,
    lt,
    length-append (first_line answer.header) (option_text answer.header ++ crlf),
    length-append (option_text answer.header) crlf,
  )

  header_text_parts :
      (first_line answer.header ++ option_text answer.header) ++ crlf ≡ header_text answer.header
  unfolding header_text
  header_text_parts = append_assoc (first_line answer.header) (option_text answer.header) crlf

  module _ (buffer1 : Bytes) (n : ℕ)
      (first : append_text 0 (length buffer) (first_line answer.header) (buffer, 0)
        ≡ ok (buffer1, n)) where
    module _ (buffer2 : Bytes) (k : ℕ)
        (options : write_http_option_fields answer.header n (sub_int (length buffer) n) buffer1
          ≡ ok (buffer2, k)) where
      filled :
          (s : Bytes × ℕ)
          → append_text 0 (length buffer) crlf (buffer2, add_int n k) ≡ ok s
          → Holds (length buffer) 0 s (header_text answer.header)
          → Filled
      filled s last holds = (
        s.0,
        holds.tail,
        fill-ok answer buffer buffer1 buffer2 s.0 n k s.1 (length (header_text answer.header)) first
            options last (omega (arith, holds.position)),
        holds.starts,
        holds.capacity,
      )

      fill_end :
          n ≡ length (first_line answer.header)
          → Holds
              (length buffer)
              n
              (buffer2, k)
              (first_line answer.header ++ option_text answer.header)
          → Filled
      fill_end e h =
          let total = length-append (first_line answer.header) (option_text answer.header) in
          let (s, last, holds) =
            append_text-Appends (length buffer) 0 (length buffer) crlf (omega arith) (omega arith)
              small (buffer2, add_int n k) (first_line answer.header ++ option_text answer.header)
              (record {
                tail = h.tail;
                starts = h.starts;
                capacity = h.capacity;
                position = omega (arith, h.position, size_parts, total);
              })
              (omega (arith, size_parts, total)) in
          filled s last (subst (Holds (length buffer) 0 s) header_text_parts holds)

    fill_options : Holds (length buffer) 0 (buffer1, n) (first_line answer.header) → Filled
    fill_options h =
        let (s, options, holds) =
          write_http_option_fields-Appends (length buffer) n (sub_int (length buffer) n)
            (omega (arith, h.position, size_parts)) (omega (arith, h.position, size_parts)) small
            answer.header buffer1 (first_line answer.header)
            (record {
              tail = h.tail;
              starts = h.starts;
              capacity = h.capacity;
              position = omega (arith, h.position);
            })
            (omega (arith, size_parts)) in
        fill_end s.0 s.1 options (omega (arith, h.position)) holds

-- If the text of an answer's header is shorter than the buffer, which has fewer than 2 ^ 31
-- bytes, then filling the buffer succeeds, the buffer keeps its size and begins with exactly that
-- text, and the number returned is the length of the text: the status line, each field that is
-- present with a CR LF, and a blank line.
pub fill_http_answer_header_buffer-header_text :
    (answer : HttpMessage) (buffer : Bytes)
    → length buffer < 2 ^ 31
    → length (header_text answer.header) < length buffer
    → (buffer' : Bytes) × (tail : Bytes) × (fill_http_answer_header_buffer answer buffer
          (length buffer)
        ≡ ok (buffer', length (header_text answer.header)))
      × (buffer' ≡ header_text answer.header ++ tail)
      × (length buffer' ≡ length buffer)
fill_http_answer_header_buffer-header_text answer buffer small lt =
    let (s, first, holds) =
      append_text-Appends (length buffer) 0 (length buffer) (first_line answer.header) (omega arith)
        (omega arith) small (buffer, 0) []
        (record { tail = buffer; starts = refl; capacity = refl; position = refl })
        (omega (arith, size_parts answer buffer small lt)) in
    fill_options answer buffer small lt s.0 s.1 first holds
