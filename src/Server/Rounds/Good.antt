-- ===== src/Server/Rounds/Good.antt =====
-- What arrives for a client, and the clients whose request was processed.
use ens_sysres_proj.Common.{◌+◌, ◌≤◌, ◌≡◌, refl, ◌≢◌, none, some, Bytes, arith, length}
use ens_sysres_proj.Cache.{FileCache}
use ens_sysres_proj.Server.{Client, ServParameters}
use ens_sysres_proj.Server.Requests.Receive.{IsReading}
use ens_sysres_proj.Server.Requests.Process.{IsAnswering, Processed, incomplete, complete}
use ens_sysres_proj.Server.Answers.{failed}
use ens_sysres_proj.Server.Answers.Header.{IsSending}
use ens_sysres_proj.Server.Rounds.{Ready}
use ens_sysres_proj.Server.Rounds.Valid.{IsClient}

-- What the calls for a client give: no read fails, no write or sendfile fails but with ECONNRESET,
-- a file can be opened, and what arrived leaves at least two bytes of the buffer.
pub record IsGood (parameters : ServParameters) (e : Ready) : Type 0 where
  pub date_short : length e.date ≤ 255
  pub bytes : Bytes
  pub arrived : e.arrived ≡ some bytes
  pub small : length bytes + 2 ≤ parameters.request_buffer_size
  pub opened : e.opened ≢ none
  pub header : e.header ≢ failed
  pub body : e.body ≢ failed

pub IsAnswering-IsSending :
    (date : Bytes) (cache : FileCache) (c : Client) → IsAnswering date cache c → IsSending c
IsAnswering-IsSending date cache c is = record {
  header = is.header;
  sent = omega (arith, is.offset);
  content = is.content;
}

pub Processed-IsClient :
    (date : Bytes) (cache : FileCache) (parameters : ServParameters) (c c' : Client)
    → IsReading parameters c
    → length c.answer_header_buffer ≡ 2048
    → Processed date cache c c'
    → IsClient parameters c' × (c'.previous ≡ c.previous) × (c'.next ≡ c.next)
Processed-IsClient date cache parameters c c' r size (incomplete h) = (
  record {
    reading = record {
      size_int = r.size_int;
      size = r.size;
      received = r.received;
      offset = r.offset;
    };
    header_size = size;
    sending = λ e. absurd (cc);
  },
  refl,
  refl,
)
Processed-IsClient date cache parameters c c' r size (complete request answer buffer h is) = (
  record {
    reading = record {
      size_int = r.size_int;
      size = r.size;
      received = r.received;
      offset = r.offset;
    };
    header_size = is.header.size;
    sending = λ e. IsAnswering-IsSending date cache _ is;
  },
  refl,
  refl,
)
