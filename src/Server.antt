-- ===== src/Server.antt =====
-- src/server.h: the server, its clients, and the memory that the clients live in. A client is known
-- by its address, and the fields `previous` and `next` hold addresses.
pub mod Clients
pub mod Requests
pub mod Answers
pub mod Rounds
pub mod Setup
pub mod Deletion
pub mod Conversation
use ens_sysres_proj.Common.{
  ℕ, Bool, Option, none, some, Bytes, Outcome, ok, fault, ◌>>=◌, ◌>>◌, in_bounds, length, leb, min,
  take, ◌==◌, if◌then◌else◌,
}
use ens_sysres_proj.Cache.{FileCache}
use ens_sysres_proj.Http.{HttpMessage}

pub data ClientState : Type 0 where
  waiting_for_request processing_request answering : ClientState

abbrev pub Ptr : Type 0
Ptr = ℕ

abbrev pub null_ptr : Ptr
null_ptr = 0

-- The socket address of the client is not modelled. `state` is `none` where the memory holds a
-- number that is none of the three constants. The lengths and offsets are `int`s, as patterns.
pub record Client : Type 0 where
  pub fd : ℕ
  pub previous : Ptr
  pub next : Ptr
  pub state : Option ClientState
  pub request_buffer : Bytes
  pub request_buffer_length : ℕ
  pub request_buffer_offset : ℕ
  pub http_request : HttpMessage
  pub answer_header_buffer : Bytes
  pub answer_header_buffer_length : ℕ
  pub answer_header_buffer_offset : ℕ
  pub http_answer : HttpMessage

pub record ServParameters : Type 0 where
  pub queue_max_length : ℕ
  pub max_nb_clients : ℕ
  pub request_buffer_size : ℕ
  pub answer_header_buffer_size : ℕ
  pub root_data_directory : Bytes
  pub cache_max_size : ℕ

pub record Server : Type 0 where
  pub sockfd : ℕ
  pub is_started : Bool
  pub clients : Ptr
  pub nb_clients : ℕ
  pub cache : Option FileCache
  pub parameters : ServParameters

abbrev pub Heap : Type 0
Heap = Ptr → Option Client

-- The server and the clients that are allocated.
pub record World : Type 0 where
  pub server : Server
  pub heap : Heap

abbrev pub server_is_started : World → Bool
server_is_started w = w.server.is_started

abbrev pub write : Heap → Ptr → Option Client → Heap
write h p c q = if q == p then c else h q

-- `*p`: a fault at NULL and at an address where no client is allocated.
unfoldable pub load : World → Ptr → Outcome Client
load w p = if p == null_ptr then fault else elim (w.heap p) [ none ↦ fault | some c ↦ ok c ]

abbrev pub save : World → Ptr → Client → World
save w p c = record w { heap = write w.heap p (some c) }
