-- ===== src/Server/Clients.antt =====
-- src/server.c: making and deleting clients, and the doubly linked list of the server's clients.
pub mod Chain
pub mod Refines
pub mod Patch
pub mod Removal
pub mod Updates
use ens_sysres_proj.Common.{
  ℕ, ◌+◌, Bool, true, false, Option, none, some, Bytes, Outcome, ok, exit, fault, ◌>>=◌, add_int,
  sub_int, ◌==◌, if◌then◌else◌,
}
use ens_sysres_proj.Http.{
  http_v1_1, http_no_code, HttpMessage, init_request_http_message, init_answer_http_message,
}
use ens_sysres_proj.Server.{
  Ptr, null_ptr, Client, ServParameters, Server, Heap, World, write, load, save,
}

-- `memory` is what `malloc` finds at the client's address, and the two buffers what it finds at
-- theirs. The state is not set.
abbrev pub init_client : (memory : Client) (fd : ℕ) (request_memory header_memory : Bytes) → Client
init_client memory fd request_memory header_memory = record memory {
  fd = fd;
  previous = null_ptr;
  next = null_ptr;
  request_buffer_length = 0;
  request_buffer_offset = 0;
  request_buffer = request_memory;
  http_request = init_request_http_message;
  answer_header_buffer_length = 0;
  answer_header_buffer_offset = 0;
  answer_header_buffer = header_memory;
  http_answer = init_answer_http_message http_v1_1 http_no_code;
}

-- Disconnects the client and frees it. Its buffers and messages belong to it alone.
unfoldable pub delete_client : World → Ptr → Outcome World
delete_client w p = do _ ← load w p; ok (record w { heap = write w.heap p none })

-- `p->previous = q` and `p->next = q`.
unfoldable pub set_previous : World → Ptr → Ptr → Outcome World
set_previous w p q = do c ← load w p; ok (save w p (record c { previous = q }))

unfoldable pub set_next : World → Ptr → Ptr → Outcome World
set_next w p q = do c ← load w p; ok (save w p (record c { next = q }))

abbrev pub set_clients : World → Ptr → World
set_clients w p = record w { server = record w.server { clients = p } }

-- The two cases of `addClientToServer`, by whether it is the first client.
unfoldable pub link_client : Bool → World → Ptr → Outcome World
unfolding set_previous set_next
link_client true w p = do w ← set_previous (set_clients w p) p null_ptr; set_next w p null_ptr
link_client false w p = do
  w ← set_previous w p null_ptr
  w ← set_next w p w.server.clients
  w ← set_previous w w.server.clients p
  ok (set_clients w p)

unfoldable pub add_client_to_server : World → Ptr → Outcome World
unfolding link_client
add_client_to_server w p = do
  w ← link_client (w.server.nb_clients == 0) w p
  ok (record w { server = record w.server { nb_clients = add_int w.server.nb_clients 1 } })

-- `client->next->previous = client->previous` and `client->previous->next = client->next`.
unfoldable pub unlink_next : World → Ptr → Outcome World
unfolding set_previous
unlink_next w p = do
  c ← load w p
  if c.next == null_ptr then ok w else set_previous w c.next c.previous

unfoldable pub unlink_previous : World → Ptr → Outcome World
unfolding set_next
unlink_previous w p = do
  c ← load w p
  if c.previous == null_ptr then ok w else set_next w c.previous c.next

unfoldable pub remove_client_from_server : World → Ptr → Outcome World
unfolding unlink_next unlink_previous delete_client
remove_client_from_server w p = do
  w ← unlink_next w p
  w ← unlink_previous w p
  c ← load w p
  let w' = if w.server.clients == p then set_clients w c.next else w
  delete_client
      (record w' { server = record w'.server { nb_clients = sub_int w'.server.nb_clients 1 } }) p
