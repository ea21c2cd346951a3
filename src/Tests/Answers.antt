-- ===== src/Tests/Answers.antt =====
-- Answers that are sent to a client.
use ens_sysres_proj.Common.{
  ◌-◌, ◌≡◌, refl, ap, sym, true, false, none, some, [], ◌∷◌, ◌++◌, codes, ok, arith, length,
  length-append, take,
}
use ens_sysres_proj.Cache.{live}
use ens_sysres_proj.Http.{HttpContent, init_empty_http_content}
use ens_sysres_proj.Http.Header.Text.{header_text}
use ens_sysres_proj.Http.Answer.Content.{IsContent}
use ens_sysres_proj.Server.{waiting_for_request, answering, Client, World, write}
use ens_sysres_proj.Server.Clients.Refines.{Represents}
use ens_sysres_proj.Server.Clients.Updates.{Updates}
use ens_sysres_proj.Server.Answers.{sent, write_http_header_to_client, write_to_client}
use ens_sysres_proj.Server.Answers.Header.{IsSending}
use ens_sysres_proj.Server.Answers.Content.{Leaves}
use ens_sysres_proj.Server.Answers.Total.{WrittenTo, write_to_client-WrittenTo}
use ens_sysres_proj.Server.Answers.Whole.{
  text_of, with_header_done, write_http_header_to_client_again, write_to_client-header_text,
}
use ens_sysres_proj.Server.Answers.Bodies.{
  write_rounds, copies, write_rounds-copies, write_to_client-Leaves,
}
use ens_sysres_proj.Tests.{repeat, length-repeat}
use ens_sysres_proj.Tests.Header.{missing, missing-length}
use ens_sysres_proj.Tests.Server.{serving, waiting}

-- A client with the header of an error and that content, of which nothing was sent.
abbrev pub with_content : HttpContent → Client
with_content content = record (waiting 0 0) {
  state = some answering;
  http_answer = record missing { content = content };
  answer_header_buffer = header_text missing.header ++ repeat 1962;
  answer_header_buffer_length = 86;
  answer_header_buffer_offset = 0;
}

abbrev one_client : HttpContent → World
one_client content = record {
  server = serving 1 1;
  heap = write (λ p. none) 1 (some (with_content content));
}

one_client-Represents : (content : HttpContent) → Represents (one_client content) (1 ∷ [])
one_client-Represents content = record {
  first = refl;
  chain = (omega arith, (_, refl, refl, refl), tt);
  distinct = (tt, tt);
  count = refl;
}

with_content-IsSending :
    (content : HttpContent) → IsContent content → IsSending (with_content content)
with_content-IsSending content is = record {
  header = record {
    tail = repeat 1962;
    starts = refl;
    length_header = sym missing-length;
    size = omega (
      arith,
      length-append (header_text missing.header) (repeat 1962),
      missing-length,
      length-repeat 1962,
    );
  };
  sent = omega arith;
  content = is;
}

empty-IsContent : IsContent init_empty_http_content
empty-IsContent = record {
  offset = refl;
  file_offset = refl;
  length_int = omega arith;
  not_freed = λ e. cc;
  filled = λ bytes e. cc;
}

abbrev in_memory : HttpContent
in_memory = record init_empty_http_content {
  length = 3;
  body = live (codes "abc");
  content_is_loaded = true;
}

in_memory-IsContent : IsContent in_memory
in_memory-IsContent = record {
  offset = refl;
  file_offset = refl;
  length_int = omega arith;
  not_freed = λ e. cc;
  filled = λ bytes e. let same : codes "abc" ≡ bytes = cc in ap length (sym same);
}

abbrev in_file : HttpContent
in_file = record init_empty_http_content { length = 3; file_path = some (codes "./www/c") }

in_file-IsContent : IsContent in_file
in_file-IsContent = record {
  offset = refl;
  file_offset = refl;
  length_int = omega arith;
  not_freed = λ e. cc;
  filled = λ bytes e. cc;
}

write_to_client-WrittenTo_example :
    WrittenTo
      (one_client in_file)
      []
      1
      []
      (with_content in_file)
      (write_to_client (sent 100) (some (5, codes "abc")) (sent 2) (one_client in_file) 1)
write_to_client-WrittenTo_example =
    write_to_client-WrittenTo (one_client in_file) [] 1 [] (with_content in_file) (sent 100)
      (some (5, codes "abc")) (sent 2) (one_client-Represents in_file) (omega arith) refl
      (with_content-IsSending in_file in_file-IsContent) (λ e. cc) (λ e. cc) (λ e. cc)

write_http_header_to_client_again_example :
    (w' w'' : World) × (write_http_header_to_client (sent 10) (one_client in_file) 1
      ≡ ok (w', take 10 (text_of (with_content in_file)), false))
    × (write_http_header_to_client (sent 100) w' 1
        ≡ ok (
          w'',
          take (length (text_of (with_content in_file)) - 10) (text_of (with_content in_file)),
          true,
        ))
write_http_header_to_client_again_example =
    write_http_header_to_client_again (one_client in_file) 1 (with_content in_file) 10 100
      (omega arith) refl (with_content-IsSending in_file in_file-IsContent) refl
      (omega (arith, missing-length)) (omega (arith, missing-length))

write_to_client-header_text_example :
    (w' : World) × (write_to_client (sent 100) none (sent 0) (one_client init_empty_http_content) 1
      ≡ ok (w', text_of (with_content init_empty_http_content), []))
    × Updates
        (one_client init_empty_http_content)
        w'
        1
        (record (with_header_done (with_content init_empty_http_content)) {
          state = some waiting_for_request;
        })
write_to_client-header_text_example =
    write_to_client-header_text (one_client init_empty_http_content) 1
      (with_content init_empty_http_content) 100 none (sent 0) (omega arith) refl
      (with_content-IsSending init_empty_http_content empty-IsContent) refl
      (omega (arith, missing-length)) refl refl

write_rounds-copies_example :
    (w' : World) × (write_rounds 3 (sent 100) none (sent 10) (one_client in_memory) 1
      ≡ ok (w', text_of (with_content in_memory) ++ copies 3 (codes "abc")))
    × (w'.heap 1 ≡ some (with_header_done (with_content in_memory)))
write_rounds-copies_example =
    write_rounds-copies 2 (one_client in_memory) 1 (with_content in_memory) (codes "abc") 100 10
      none (omega arith) refl (with_content-IsSending in_memory in_memory-IsContent) refl refl refl
      (omega arith) (omega (arith, missing-length)) (omega arith)

write_to_client-Leaves_example :
    (w' : World) × (write_to_client
        (sent 100)
        (some (5, codes "abc"))
        (sent 2)
        (one_client in_file)
        1
      ≡ ok (w', text_of (with_content in_file), codes "ab"))
    × Leaves (one_client in_file) w' [] 1 []
write_to_client-Leaves_example =
    write_to_client-Leaves (one_client in_file) [] 1 [] (with_content in_file) 100 2 5 (codes "abc")
      (codes "./www/c") (one_client-Represents in_file) (omega arith) refl
      (with_content-IsSending in_file in_file-IsContent) refl refl refl
      (omega (arith, missing-length))
