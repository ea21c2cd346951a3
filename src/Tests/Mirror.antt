-- ===== src/Tests/Mirror.antt =====
-- The files of the small disk in its cache, and requests for them.
use mathlib.Core.List.{Memᴰ}
use ens_sysres_proj.Common.{
  ◌≡◌, refl, Option, some, List, [], ◌∷◌, Bytes, codes, ok, arith, true, bytes_eq,
}
use ens_sysres_proj.Toolbox.{ends_with_slash, append_name, append_name_to_path}
use ens_sysres_proj.Toolbox.Paths.{is_plain}
use ens_sysres_proj.Cache.{File, Folder, filename_is_special}
use ens_sysres_proj.Cache.Disk.{regular, directory}
use ens_sysres_proj.Cache.Build.{entry_path}
use ens_sysres_proj.Cache.Find.{find_file_in_cache}
use ens_sysres_proj.Cache.Find.Components.{components, collapse}
use ens_sysres_proj.Cache.Mirror.{IsEntry, Mirrors, Reaches, here, below, HasPlainNames}
use ens_sysres_proj.Cache.Mirror.Build.{build_cache_from_disk-Mirrors}
use ens_sysres_proj.Cache.Mirror.Requests.{Serves, find_file_in_cache-Serves, answer_request-Serves}
use ens_sysres_proj.Cache.Mirror.Delivers.{Delivers, answer_request-Delivers}
use ens_sysres_proj.Http.{http_get, http_head, http_v1_1, http_200, HttpMessage}
use ens_sysres_proj.Http.Parse.RoundTrip.{request_line}
use ens_sysres_proj.Http.Answer.Expected.{answer_for_file}
use ens_sysres_proj.Http.Answer.Laws.{answer_request}
use ens_sysres_proj.Tests.{www, small_disk, small_cache}
use ens_sysres_proj.Tests.Cache.{names_of-all, small_disk-small_cache}
use ens_sysres_proj.Tests.Http.{today, target_b, end_bytes, target_b-IsWord}

build_cache_from_disk-Mirrors_example :
    (root : Folder) × (small_cache.root ≡ some root) × Mirrors small_disk www root
build_cache_from_disk-Mirrors_example =
    build_cache_from_disk-Mirrors small_disk www 100 (omega arith) small_disk-small_cache

abbrev ArePlain : List Bytes → Type 0
ArePlain names = (name : Bytes) → Memᴰ name names → is_plain name ≡ true

plain_root : ArePlain (codes "." ∷ codes ".." ∷ codes "a" ∷ codes "sub" ∷ [])
plain_root name (Memᴰ.head e) = rw e refl
plain_root name (Memᴰ.tail (Memᴰ.head e)) = rw e refl
plain_root name (Memᴰ.tail (Memᴰ.tail (Memᴰ.head e))) = rw e refl
plain_root name (Memᴰ.tail (Memᴰ.tail (Memᴰ.tail (Memᴰ.head e)))) = rw e refl
plain_root name (Memᴰ.tail (Memᴰ.tail (Memᴰ.tail (Memᴰ.tail m)))) = elim m [ ]

plain_sub : ArePlain (codes "." ∷ codes ".." ∷ codes "b" ∷ [])
plain_sub name (Memᴰ.head e) = rw e refl
plain_sub name (Memᴰ.tail (Memᴰ.head e)) = rw e refl
plain_sub name (Memᴰ.tail (Memᴰ.tail (Memᴰ.head e))) = rw e refl
plain_sub name (Memᴰ.tail (Memᴰ.tail (Memᴰ.tail m))) = elim m [ ]

pub small_disk-HasPlainNames : HasPlainNames small_disk
small_disk-HasPlainNames = record {
  plain = λ path names e. names_of-all ArePlain _ _ names plain_root plain_sub e;
}

sub-IsEntry : IsEntry small_disk www (codes "sub") (codes "./www/sub") directory
unfolding filename_is_special bytes_eq entry_path append_name_to_path append_name ends_with_slash
sub-IsEntry = record { ordinary = refl; entry = refl; stat = refl }

b-IsEntry : IsEntry small_disk (codes "./www/sub") (codes "b") (codes "./www/sub/b") (regular 70)
unfolding filename_is_special bytes_eq entry_path append_name_to_path append_name ends_with_slash
b-IsEntry = record { ordinary = refl; entry = refl; stat = refl }

Reaches-target_b : Reaches small_disk www (collapse (components target_b)) (codes "./www/sub/b") 70
unfolding collapse components bytes_eq
Reaches-target_b =
    below
      (record {
        names = codes "." ∷ codes ".." ∷ codes "a" ∷ codes "sub" ∷ [];
        listed = refl;
        member = Memᴰ.tail (Memᴰ.tail (Memᴰ.tail (Memᴰ.head refl)));
        is_entry = sub-IsEntry;
      })
      (here (record {
        names = codes "." ∷ codes ".." ∷ codes "b" ∷ [];
        listed = refl;
        member = Memᴰ.tail (Memᴰ.tail (Memᴰ.head refl));
        is_entry = b-IsEntry;
      }))

find_file_in_cache-Serves_example :
    (found : Option File) × (find_file_in_cache small_cache target_b ≡ ok found)
    × Serves small_disk www (collapse (components target_b)) found
find_file_in_cache-Serves_example =
    find_file_in_cache-Serves small_disk-HasPlainNames www 100 (omega arith) small_disk-small_cache
      target_b (omega arith)

answer_request-Serves_example :
    (found : Option File) × Serves small_disk www (collapse (components target_b)) found
    × (answer_request today small_cache (request_line http_get 0 target_b 1 http_v1_1 end_bytes)
        ≡ ok (answer_for_file today http_get found))
    × (answer_request today small_cache (request_line http_head 0 target_b 1 http_v1_1 end_bytes)
        ≡ ok (answer_for_file today http_head found))
answer_request-Serves_example =
    answer_request-Serves small_disk-HasPlainNames www 100 (omega arith) small_disk-small_cache
      today 0 target_b 1 end_bytes target_b-IsWord (omega arith)

answer_request-Delivers_example :
    (m : HttpMessage) × (answer_request today small_cache
        (request_line http_get 0 target_b 1 http_v1_1 end_bytes)
      ≡ ok m)
    × (m.header.code ≡ http_200)
    × (m.header.content_length ≡ m.content.length)
    × Delivers small_disk (codes "./www/sub/b") 70 m
answer_request-Delivers_example =
    answer_request-Delivers www 100 today 0 target_b 1 end_bytes (codes "./www/sub/b") 70
      small_disk-HasPlainNames (omega arith) small_disk-small_cache target_b-IsWord (omega arith)
      Reaches-target_b (omega arith) (omega arith, (omega arith, tt))
