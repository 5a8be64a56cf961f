-- ===== src/Relay/Connection/Waiting.antt =====
-- How the async `read` of http_network_relay/network_relay.py is woken.
use http_network_relay.Prelude.{
  ℕ, suc, ◌<◌, ◌≡◌, ◌≢◌, refl, ap, subst, ◌∙◌, ◌⊎◌, inl, inr, false, true, some, [], ◌∷◌, length,
  take, drop, nat_eqb, nat_eqb_iff, text_key, arith,
}
use http_network_relay.Prelude.Dict
use http_network_relay.Relay.Close.{drop_relayed_connection, wake_readers}
use http_network_relay.Relay.World.{World, Relay, Env, done}
use http_network_relay.Frame.Hex.{Bytes}
use http_network_relay.Relay.Connection.{
  closed, fill_recv, handle_tcp_binary_data, wait_event, clear_event, await_data, take_bytes, read,
}

-- There is something for `read` to return: data, or the end of the connection.
abbrev pub IsDue : ℕ → World → Type 0
IsDue address v =
    (0 < length (v.objects address).recv_buffer)
    ⊎ (((v.objects address).recv_buffer ≡ []) × (closed address v ≡ true))

-- What ends the wait: the message loop hands data for the connection over, or drops it, and
-- `bytes` is what has come.
pub data Wakes (address : ℕ) (w v : World) : Bytes → Type 0 where
  by_data :
      (payload : Bytes)
      → payload ≢ []
      → v ≡ (handle_tcp_binary_data (w.objects address).id payload w).1
      → Wakes address w v payload
  by_end : v ≡ (drop_relayed_connection (w.objects address).id w).1 → Wakes address w v []

-- `read` returned at most `n` of the bytes, from the front, and left the rest in the buffer.
pub record IsServed (address n : ℕ) (bytes : Bytes) (m : Relay Bytes) (w : World) : Type 0 where
  pub final : World
  pub returns : m w ≡ (done (take n bytes), final)
  pub rest : (final.objects address).recv_buffer ≡ drop n bytes

same_address : (address : ℕ) → nat_eqb address address ≡ true
same_address address = (nat_eqb_iff address address).1 refl

cleared-recv_buffer :
    (address : ℕ) (v : World)
    → ((clear_event address v).objects address).recv_buffer ≡ (v.objects address).recv_buffer
unfolding clear_event
cleared-recv_buffer address v = ground (arith, same_address address)

cleared-closed :
    (address : ℕ) (v : World) → closed address (clear_event address v) ≡ closed address v
unfolding closed clear_event
cleared-closed address v = rw (same_address address)

taken-recv_buffer :
    (address n : ℕ) (w : World)
    → ((take_bytes address n w).1.objects address).recv_buffer
      ≡ drop n (w.objects address).recv_buffer
unfolding take_bytes
taken-recv_buffer address n w = ground (arith, same_address address)

taken :
    (address n : ℕ) (w : World)
    → take_bytes address n w
      ≡ (done (take n (w.objects address).recv_buffer), (take_bytes address n w).1)
unfolding take_bytes
taken address n w = refl

length-positive : (bytes : Bytes) → bytes ≢ [] → 0 < length bytes
length-positive [] some_bytes = absurd (some_bytes refl)
length-positive (b ∷ bytes) some_bytes = omega arith

module _ (env : Env) (address : ℕ) where
  await-data :
      (fuel : ℕ) (w : World)
      → 0 < length (w.objects address).recv_buffer
      → await_data env (suc fuel) address w ≡ (done true, w)
  unfolding await_data
  await-data fuel w there = ground arith

  await-closed :
      (fuel : ℕ) (w : World)
      → (w.objects address).recv_buffer ≡ []
      → closed address w ≡ true
      → await_data env (suc fuel) address w ≡ (done false, w)
  unfolding await_data
  await-closed fuel w empty over = rw (await_data, empty, over) refl

  await-woken :
      (fuel : ℕ) (w : World)
      → (w.objects address).recv_buffer ≡ []
      → closed address w ≡ false
      → (w.objects address).event ≡ false
      → ((env.others w).objects address).event ≡ true
      → await_data env (suc fuel) address w
        ≡ await_data env fuel address (clear_event address (env.others w))
  unfolding await_data wait_event
  await-woken fuel w empty not_over unset set =
      rw (await_data, empty, not_over, wait_event, unset, set) refl

  read-due :
      (n fuel : ℕ) (v w : World)
      → IsDue address v
      → await_data env (suc (suc fuel)) address w
        ≡ await_data env (suc fuel) address (clear_event address v)
      → IsServed address
          (suc n)
          (v.objects address).recv_buffer
          (read env (suc (suc fuel)) address (some (suc n)))
          w
  unfolding read
  read-due n fuel v w (inl there) e =
      let u = clear_event address v in
      let same = cleared-recv_buffer address v in
      record {
        final = (take_bytes address (suc n) u).1;
        returns = rw (read, e, await-data fuel u (rw same there), taken address (suc n) u, same);
        rest = taken-recv_buffer address (suc n) u ∙ ap (drop (suc n)) same;
      }
  read-due n fuel v w (inr (empty, over)) e =
      let u = clear_event address v in
      let same = cleared-recv_buffer address v in
      record {
        final = u;
        returns =
            rw
              (read, e, await-closed fuel u (same ∙ empty) (cleared-closed address v ∙ over), empty)
              refl;
        rest = rw (same, empty) refl;
      }

  -- Data comes for a connection with nothing buffered.
  data-wakes :
      (w : World) (payload : Bytes)
      → Dict.lookup (w.objects address).id w.active_relayed_connections ≡ some address
      → (w.objects address).recv_buffer ≡ []
      → let v = (handle_tcp_binary_data (w.objects address).id payload w).1 in
        ((v.objects address).event ≡ true) × ((v.objects address).recv_buffer ≡ payload)
  unfolding handle_tcp_binary_data fill_recv
  data-wakes w payload active empty = ground (arith, same_address address)

  -- The connection is dropped, which wakes its readers.
  drop-wakes :
      (w : World)
      → Dict.lookup (w.objects address).id w.active_relayed_connections ≡ some address
      → (w.objects address).recv_buffer ≡ []
      → let v = (drop_relayed_connection (w.objects address).id w).1 in
        ((v.objects address).event ≡ true)
        × ((v.objects address).recv_buffer ≡ [])
        × (closed address v ≡ true)
  unfolding drop_relayed_connection wake_readers closed Dict.contains
  drop-wakes w active empty =
      let id = (w.objects address).id in
      ground (
        arith,
        same_address address,
        Dict.lookup-erase id id w.active_relayed_connections,
        Dict.eq_self id,
      )

  open_while_active :
      (w : World)
      → Dict.lookup (w.objects address).id w.active_relayed_connections ≡ some address
      → closed address w ≡ false
  unfolding closed Dict.contains
  open_while_active w active = ground arith

  -- A read that waits is ended by data or by the end of its connection. If `read` finds the
  -- connection active and nothing buffered, and while it waits the other tasks hand a payload that
  -- is not empty over to the connection, or drop it, then `read` returns the first bytes of the
  -- payload and leaves the rest, or returns no bytes.
  pub read-woken :
      (n fuel : ℕ) (w : World) (bytes : Bytes)
      → Dict.lookup (w.objects address).id w.active_relayed_connections ≡ some address
      → (w.objects address).recv_buffer ≡ []
      → (w.objects address).event ≡ false
      → Wakes address w (env.others w) bytes
      → IsServed address (suc n) bytes (read env (suc (suc fuel)) address (some (suc n))) w
  read-woken n fuel w bytes active empty unset wakes = served bytes wakes
    where
      Served : Bytes → Type 0
      Served b = IsServed address (suc n) b (read env (suc (suc fuel)) address (some (suc n))) w

      by_event :
          ((env.others w).objects address).event ≡ true
          → IsDue address (env.others w)
          → Served ((env.others w).objects address).recv_buffer
      by_event set due =
          read-due n fuel (env.others w) w due
            (await-woken (suc fuel) w empty (open_while_active w active) unset set)

      served : (b : Bytes) → Wakes address w (env.others w) b → Served b
      served _ (by_data payload some_bytes e) =
          let (set, filled) = data-wakes w payload active empty in
          let filled' : ((env.others w).objects address).recv_buffer ≡ payload = rw e filled in
          subst Served filled'
            (by_event (rw e set) (inl (rw filled' (length-positive payload some_bytes))))
      served _ (by_end e) =
          let (set, none_left, over) = drop-wakes w active empty in
          let none_left' : ((env.others w).objects address).recv_buffer ≡ [] = rw e none_left in
          subst Served none_left' (by_event (rw e set) (inr (none_left', rw e over)))
