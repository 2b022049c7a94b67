-- ===== src/Server/Invariant.antt =====
-- The two tables of `Connections` are keyed by the id and by the full host of their clients, and that
-- of the active streams by their ids, with one entry for each key.
use neutun.Base.{length, ◌≡◌, refl, Text, some, Bool-cases, inl, inr}
use neutun.Table
use neutun.Channel.{Channels}
use neutun.Protocol.{StreamId}
use neutun.Server.{ConnectedClient, ActiveStream, StreamMessage, full_host, Server}
use neutun.Server.Connections.{holds, add, remove, update_host, find_by_host}

pub record IsKeyed (s : Server) : Type 0 where
  pub by_id : Table.All (λ k c. k ≡ c.id) s.clients
  pub by_host : Table.All (λ k c. k ≡ full_host c) s.hosts
  pub unique_ids : Table.IsUnique s.clients
  pub unique_hosts : Table.IsUnique s.hosts

-- A stream's id is an array of eight bytes.
pub record IsStreamed (s : Server) : Type 0 where
  pub by_stream_id : Table.All (λ k st. (k ≡ st.id) × (length k ≡ 8)) s.active_streams
  pub unique_streams : Table.IsUnique s.active_streams

pub insert-IsStreamed :
    (st : ActiveStream) (ps : Channels StreamMessage) (s : Server)
    → length st.id ≡ 8
    → IsStreamed s
    → IsStreamed (record s { pipes = ps; active_streams = Table.insert st.id st s.active_streams })
insert-IsStreamed st ps s eight h = record {
  by_stream_id = Table.insert-All _ st.id st s.active_streams (refl, eight) h.by_stream_id;
  unique_streams = Table.insert-IsUnique st.id st s.active_streams h.unique_streams;
}

pub remove-IsStreamed :
    (sid : StreamId) (ps : Channels StreamMessage) (s : Server)
    → IsStreamed s
    → IsStreamed (record s { pipes = ps; active_streams = Table.remove sid s.active_streams })
remove-IsStreamed sid ps s h = record {
  by_stream_id = Table.remove-All _ sid s.active_streams h.by_stream_id;
  unique_streams = Table.remove-IsUnique sid s.active_streams h.unique_streams;
}

pub add-IsKeyed : (c : ConnectedClient) (s : Server) → IsKeyed s → IsKeyed (add c s)
unfolding add
add-IsKeyed c s h = record {
  by_id = Table.insert-All _ c.id c s.clients refl h.by_id;
  by_host = Table.insert-All _ (full_host c) c s.hosts refl h.by_host;
  unique_ids = Table.insert-IsUnique c.id c s.clients h.unique_ids;
  unique_hosts = Table.insert-IsUnique (full_host c) c s.hosts h.unique_hosts;
}

pub update_host-IsKeyed : (c : ConnectedClient) (s : Server) → IsKeyed s → IsKeyed (update_host c s)
unfolding update_host
update_host-IsKeyed c s h = record {
  by_id = h.by_id;
  by_host = Table.insert-All _ (full_host c) c s.hosts refl h.by_host;
  unique_ids = h.unique_ids;
  unique_hosts = Table.insert-IsUnique (full_host c) c s.hosts h.unique_hosts;
}

pub remove-IsKeyed : (c : ConnectedClient) (s : Server) → IsKeyed s → IsKeyed (remove c s)
unfolding remove
remove-IsKeyed c s h = record {
  by_id = Table.remove-All _ c.id s.clients h.by_id;
  by_host = elim (Bool-cases (holds (Table.get (full_host c) s.hosts) c)) [
    | inl e ↦ rw e (Table.remove-All _ (full_host c) s.hosts h.by_host)
    | inr e ↦ rw e h.by_host
  ];
  unique_ids = Table.remove-IsUnique c.id s.clients h.unique_ids;
  unique_hosts = elim (Bool-cases (holds (Table.get (full_host c) s.hosts) c)) [
    | inl e ↦ rw e (Table.remove-IsUnique (full_host c) s.hosts h.unique_hosts)
    | inr e ↦ rw e h.unique_hosts
  ];
}

-- Whoever is found by a host serves that host.
pub find_by_host-full_host :
    (host : Text) (s : Server) {c : ConnectedClient}
    → IsKeyed s
    → find_by_host host s ≡ some c
    → host ≡ full_host c
unfolding find_by_host
find_by_host-full_host host s h e = Table.get-All (λ k c. k ≡ full_host c) host s.hosts h.by_host e
