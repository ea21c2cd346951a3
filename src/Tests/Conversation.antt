-- ===== src/Tests/Conversation.antt =====
-- A request for a file of the small disk, and the bytes that are sent.
use ens_sysres_proj.Common.{
  ℕ, ◌<◌, ◌^◌, ◌≡◌, refl, some, ◌∷◌, [], ◌++◌, Bytes, codes, ok, arith, Bool, true, false, Option,
  none, bytes_eq, if◌then◌else◌,
}
use ens_sysres_proj.Cache.Disk.{Stat, regular, directory}
use ens_sysres_proj.Cache.Find.{
  find_subfolder, find_subfolder_in_folder, find_file, find_file_in_folder, skip_slashes,
  split_slash, find_loop, find_file_in_cache,
}
use ens_sysres_proj.Cache.Find.Components.{components, collapse}
use ens_sysres_proj.Cache.Mirror.{Reaches}
use ens_sysres_proj.Http.{http_get, http_v1_1}
use ens_sysres_proj.Http.Parse.RoundTrip.{request_line, method_name, version_name}
use ens_sysres_proj.Http.Answer.Expected.{answer_for_file}
use ens_sysres_proj.Http.Header.Text.{header_text}
use ens_sysres_proj.Server.{World}
use ens_sysres_proj.Server.Requests.{read_from_client}
use ens_sysres_proj.Server.Answers.{sent, write_to_client}
use ens_sysres_proj.Server.Conversation.{blank_line}
use ens_sysres_proj.Server.Conversation.Sends.{Sends, IsOrdinary, conversation-Sends}
use ens_sysres_proj.Tests.{www, small_disk, file_b, small_root, small_cache}
use ens_sysres_proj.Tests.Cache.{small_disk-small_cache}
use ens_sysres_proj.Tests.Http.{today, target_b, target_b-IsWord}
use ens_sysres_proj.Tests.Mirror.{small_disk-HasPlainNames}
use ens_sysres_proj.Tests.Rounds.{one_waiting, one_waiting-IsServer}

if-regular :
    (b : Bool) (n size : ℕ) (s : Option Stat)
    → (if b then some (regular n) else s) ≡ some (regular size)
    → n < 100
    → (s ≡ some (regular size) → size < 2 ^ 31)
    → size < 2 ^ 31
if-regular true n size s e small rest = let same : n ≡ size = cc in omega arith
if-regular false n size s e small rest = rest e

small_disk-sizes : (q : Bytes) (size : ℕ) → small_disk.stat q ≡ some (regular size) → size < 2 ^ 31
small_disk-sizes q size e = if-regular (bytes_eq q (codes "./www/a")) 3 size _ e (omega arith) λ e'.
    no_directory (bytes_eq q (codes "./www/sub")) size _ e'
      λ e''. if-regular (bytes_eq q (codes "./www/sub/b")) 70 size none e'' (omega arith) (λ z. cc)
  where
    no_directory :
        (b : Bool) (size : ℕ) (s : Option Stat)
        → (if b then some directory else s) ≡ some (regular size)
        → (s ≡ some (regular size) → size < 2 ^ 31)
        → size < 2 ^ 31
    no_directory true size s e rest = cc
    no_directory false size s e rest = rest e

small_disk-IsOrdinary : IsOrdinary small_disk
small_disk-IsOrdinary = record {
  plain = small_disk-HasPlainNames;
  sizes = small_disk-sizes;
  pieces = λ q. (omega arith, (omega arith, tt));
}

abbrev front_b : Bytes
front_b = codes "GET /sub/b  HTTP/1.1"

front_b-request_line :
    request_line http_get 0 target_b 1 http_v1_1 (b'\n' ∷ b'\r' ∷ b'\n' ∷ [])
    ≡ front_b ++ blank_line
unfolding method_name version_name
front_b-request_line = refl

finds_target_b : find_file_in_cache small_cache target_b ≡ ok (some file_b)
unfolding find_file_in_cache find_loop skip_slashes split_slash find_file_in_folder find_file
    find_subfolder_in_folder find_subfolder bytes_eq
finds_target_b = refl

conversation-Sends_example :
    (w' w'' : World) × (q : Bytes) × (size : ℕ) × (body : Bytes) × (read_from_client today
        (some (front_b ++ blank_line))
        one_waiting
        1
      ≡ ok w')
    × (write_to_client (sent 4096) none (sent 512) w' 1
        ≡ ok (w'', header_text (answer_for_file today http_get (some file_b)).header, body))
    × Reaches small_disk www (collapse (components target_b)) q size
    × Sends small_disk q size body
conversation-Sends_example =
    conversation-Sends small_disk www 100 small_cache small_root one_waiting (1 ∷ []) 1 _ today 0
      target_b 1 (b'\n' ∷ b'\r' ∷ b'\n' ∷ []) front_b file_b 4096 512 none small_disk-IsOrdinary
      (omega arith) small_disk-small_cache one_waiting-IsServer (omega arith) refl refl
      (omega arith) target_b-IsWord (omega arith) front_b-request_line (omega arith) (omega arith)
      finds_target_b (λ e. cc) (omega arith) (omega arith) (omega arith)
