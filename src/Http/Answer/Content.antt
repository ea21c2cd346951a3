-- ===== src/Http/Answer/Content.antt =====
-- The content of the answers.
use ens_sysres_proj.Common.{
  ◌<◌, ◌^◌, ◌≡◌, refl, ◌≢◌, sym, subst, ◌∙◌, some, Bytes, ok, ok-injective, arith, length,
  Bool-cases, inl, inr,
}
use ens_sysres_proj.Cache.{
  File, FileState, not_loaded, loaded_raw, loaded_compressed, Folder, FileCache, live, freed,
}
use ens_sysres_proj.Cache.Sizes.{IsFresh, IsBuilt}
use ens_sysres_proj.Http.{HttpMethod, HttpCode, HttpContent, HttpMessage}
use ens_sysres_proj.Http.Parse.Safe.{IsTerminated}
use ens_sysres_proj.Http.Answer.Expected.{
  error_message, file_content, asks_body, no_content, answer_for_file,
}
use ens_sysres_proj.Http.Answer.Laws.{answer_request}
use ens_sysres_proj.Http.Answer.Safe.{answer_request-IsAnswer, IsAnswer-elim}

-- A content of which nothing was sent yet.
pub record IsContent (k : HttpContent) : Type 0 where
  pub offset : k.offset ≡ 0
  pub file_offset : k.file_offset ≡ 0
  pub length_int : k.length < 2 ^ 31
  pub not_freed : k.body ≢ freed
  pub filled : (bytes : Bytes) → k.body ≡ live bytes → length bytes ≡ k.length

error-IsContent : (date : Bytes) (c : HttpCode) → IsContent (error_message date c).content
error-IsContent date c = record {
  offset = refl;
  file_offset = refl;
  length_int = omega arith;
  not_freed = λ e. cc;
  filled = λ bytes e. cc;
}

file_content-IsContent :
    (s : FileState) (file : File) → IsFresh file → IsContent (file_content s file)
file_content-IsContent not_loaded file fresh = record {
  offset = refl;
  file_offset = refl;
  length_int = fresh.size_int;
  not_freed = λ e. cc;
  filled = λ bytes e. cc;
}
file_content-IsContent loaded_raw file fresh = record {
  offset = refl;
  file_offset = refl;
  length_int = fresh.size_int;
  not_freed = fresh.not_freed;
  filled = fresh.filled;
}
file_content-IsContent loaded_compressed file fresh = record {
  offset = refl;
  file_offset = refl;
  length_int = fresh.size_int;
  not_freed = fresh.not_freed;
  filled = fresh.filled;
}

empty-IsContent : IsContent no_content
empty-IsContent = record {
  offset = refl;
  file_offset = refl;
  length_int = omega arith;
  not_freed = λ e. cc;
  filled = λ bytes e. cc;
}

answer_for_file-IsContent :
    (date : Bytes) (m : HttpMethod) (file : File)
    → IsFresh file
    → IsContent (answer_for_file date m (some file)).content
answer_for_file-IsContent date m file fresh = elim (Bool-cases (asks_body m)) [
  | inl e ↦ rw e (file_content-IsContent file.state file fresh)
  | inr e ↦ rw e empty-IsContent
]

-- Nothing was sent of the content of an answer, and its body has the length that it says.
pub answer_request-IsContent :
    (date : Bytes) (cache : FileCache) (root : Folder) (request : Bytes) {answer : HttpMessage}
    → cache.root ≡ some root
    → IsBuilt root
    → IsTerminated request
    → answer_request date cache request ≡ ok answer
    → IsContent answer.content
answer_request-IsContent date cache root request e built t made =
    let (answer', made', is) = answer_request-IsAnswer date cache root request e t in
    let P : HttpMessage → Type 0 = λ a. IsContent a.content in
    subst P (ok-injective (sym made' ∙ made)) (
      IsAnswer-elim P date root built (λ c. error-IsContent date c)
        (λ m file fresh. answer_for_file-IsContent date m file fresh) is)
