-- ===== src/Tracker/Client.antt =====
-- tracker/client.c, and the two functions of tracker/network.c that print an address.
pub mod Removal
pub mod Dropping
pub mod Counts
pub mod Neutral
use raiezau.Base.{
  ℕ, ◌+◌, ◌-◌, false, Option, none, some, List, [], ◌∷◌, ◌++◌, leb, if◌then◌else◌, length, set,
}
use raiezau.Base.Bytes.{Bytes, codes}
use raiezau.Cutil.HashTable
use raiezau.Cutil.Uthash.{Uthash}
use raiezau.Tracker.Env.{SockAddr, decimal}
use raiezau.Tracker.File.{file_remove_client}
use raiezau.Tracker.State.{Client, State, Cmd, pure, ◌>>=◌, ◌>>◌, modify, load_client, store_client}

-- `inet_ntop`
unfoldable pub ip_stringify : SockAddr → Bytes
unfolding decimal
ip_stringify a =
    decimal a.a
    ++ (codes "." ++ (decimal a.b ++ (codes "." ++ (decimal a.c ++ (codes "." ++ decimal a.d)))))

unfoldable pub sockaddr_stringify : SockAddr → Bytes
unfolding ip_stringify decimal
sockaddr_stringify a = ip_stringify a ++ (codes ":" ++ decimal a.port)

-- the new object; the rest is zero, as `calloc` leaves it
unfoldable pub client_create : ℕ → SockAddr → Bytes → Client
client_create socket addr conn_key = record {
  socket = socket;
  addr = addr;
  conn_addr_key = conn_key;
  listening_port = 0;
  listen_addr_key = none;
  files_seed = [];
  files_leech = [];
  ref_count = 0;
  can_rehear = false;
}

module _ (u : Uthash ℕ) where
  -- `port` is of type `uint16_t`
  unfoldable pub client_set_listening_port : ℕ → ℕ → Cmd u (Unit {0})
  unfolding load_client store_client ip_stringify decimal
  client_set_listening_port c port = do
    k ← load_client c
    store_client c (record k {
      listening_port = port;
      listen_addr_key = some (ip_stringify k.addr ++ (codes ":" ++ decimal port));
    })

  unfoldable pub remove_client_from_file_list : ℕ → List ℕ → Cmd u (Unit {0})
  remove_client_from_file_list c [] = pure tt
  remove_client_from_file_list c (f ∷ files) = do
    file_remove_client u f c
    remove_client_from_file_list c files

  unfoldable pub client_free : ℕ → Cmd u (Unit {0})
  client_free c = do
    k ← load_client c
    remove_client_from_file_list c k.files_seed
    remove_client_from_file_list c k.files_leech
    modify (λ s. record s { client_at = set s.client_at c none })

  -- `peer` is what `getpeername` gives for the socket; the result `none` is NULL
  unfoldable pub client_get_or_create : ℕ → Option SockAddr → State u → Option ℕ × State u
  unfolding HashTable.get_entry HashTable.add_entry client_create sockaddr_stringify
  client_get_or_create socket none s = (none, s)
  client_get_or_create socket (some addr) s =
      let conn_key = sockaddr_stringify addr in
      elim (HashTable.get_entry u s.clients conn_key) [
        | some c ↦ (some c, s)
        | none ↦
            let c = length s.client_at in
            (
              some c,
              record s {
                client_at = s.client_at ++ some (client_create socket addr conn_key) ∷ [];
                clients = HashTable.add_entry u s.clients conn_key c;
              },
            )
      ]

  unfoldable pub client_get : State u → Bytes → Option ℕ
  unfolding HashTable.get_entry
  client_get s conn_key = HashTable.get_entry u s.clients conn_key

  unfoldable pub client_list : State u → List ℕ
  unfolding HashTable.to_list
  client_list s = HashTable.to_list u s.clients

  unfoldable pub delete_client : ℕ → Cmd u (Unit {0})
  delete_client c = do
    k ← load_client c
    modify (λ s. record s { clients = (HashTable.remove_entry u s.clients k.conn_addr_key).0 })
    client_free c

  unfoldable pub client_inc_ref : ℕ → Cmd u (Unit {0})
  unfolding load_client store_client
  client_inc_ref c = do k ← load_client c; store_client c (record k { ref_count = k.ref_count + 1 })

  -- a count that would fall below zero stays at 0 here, and the client is deleted all the same
  unfoldable pub client_dec_ref : ℕ → Cmd u (Unit {0})
  client_dec_ref c = do
    k ← load_client c
    store_client c (record k { ref_count = k.ref_count - 1 })
    if leb (k.ref_count - 1) 0 then delete_client c else pure tt
