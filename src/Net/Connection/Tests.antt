-- ===== src/Net/Connection/Tests.antt =====
-- Connections at concrete inputs.
use recreation_test.Base.{
  ◌<◌, ◌≤◌, ◌≡◌, ◌⊎◌, refl, true, false, List, [], ◌∷◌, ◌++◌, length, some, bytes, ok, err, panic,
}
use recreation_test.Net.Session.{blocked}
use recreation_test.Net.Workers.{MsgPack}
use recreation_test.Net.Connection.{
  binary_frame, handing, read_ended, selecting, write_ended, Running, write_chan_capacity, running,
  shut, forget, end_reader, send_message, hold, on_read, deadline, look, receive, give_up,
  take_message, read_message, write_next, write_message, Move, reads, writes, sends, shuts, act,
  Reaches, start, onward,
}
use recreation_test.Net.Connection.Delivery.{IsHeld, Reaches-Delivers}
use recreation_test.Net.Connection.Closing.{act_all, reads_of}
use recreation_test.Net.Connection.Ends.{act_all-Reaches, IsReady, MayEnd, reader_ends}
use recreation_test.Net.Connection.Sending.{send_message_cases, send_message_fatal}

-- A message comes in and waits for room, and another one is to be written.
abbrev busy_moves : List Move
busy_moves =
    reads (deadline true)
    ∷ reads look
    ∷ reads (receive (some (binary_frame (7 ∷ []))))
    ∷ sends (8 ∷ [])
    ∷ writes take_message
    ∷ sends (9 ∷ [])
    ∷ []

abbrev busy : Running
busy = record {
  cid = bytes "c";
  known = true;
  close_chan_closed = false;
  write_chan = (9 ∷ []) ∷ [];
  write_chan_closed = false;
  reader = handing (record { cid = bytes "c"; body = 7 ∷ [] });
  writer = selecting;
  read_chan = [];
  written = (8 ∷ []) ∷ [];
  accepted = (8 ∷ []) ∷ (9 ∷ []) ∷ [];
  received = (record { cid = bytes "c"; body = 7 ∷ [] }) ∷ [];
}

busy_run : act_all busy_moves (running (bytes "c") true) ≡ ok busy
unfolding act_all act running read_message on_read hold send_message write_message write_next
busy_run = refl

busy-Reaches : Reaches (running (bytes "c") true) busy
unfolding act running read_message on_read hold send_message write_message write_next
busy-Reaches =
    act_all-Reaches busy_moves (running (bytes "c") true) (running (bytes "c") true) busy start
      busy_run

Reaches-Delivers_example :
    (busy.written ++ busy.write_chan ≡ busy.accepted)
    × (1 ≤ write_chan_capacity)
    × ((kept : List MsgPack) × (busy.read_chan ++ kept ≡ busy.received) × IsHeld busy kept)
Reaches-Delivers_example = Reaches-Delivers (bytes "c") true busy busy-Reaches

abbrev closing : Running
closing = shut busy

abbrev gone : Running
gone = record closing { known = false; reader = read_ended }

gone_run : act_all (reads give_up ∷ []) closing ≡ ok gone
unfolding act_all act shut read_message end_reader forget
gone_run = refl

closing-Reaches : Reaches (running (bytes "c") true) closing
unfolding act
closing-Reaches = onward shuts busy-Reaches refl

closing_closed : closing.close_chan_closed ≡ true
unfolding shut
closing_closed = refl

reader_ends_example : (reads_of (reads give_up ∷ []) ≤ 3) × IsReady gone × MayEnd gone
reader_ends_example =
    reader_ends (bytes "c") true (reads give_up ∷ []) closing gone closing-Reaches closing_closed
      gone_run

send_message_cases_example :
    ((busy.writer ≡ write_ended)
      × (busy.close_chan_closed ≡ true)
      × (send_message (5 ∷ []) busy ≡ panic))
    ⊎ ((busy.writer ≡ selecting)
        × (length busy.write_chan ≡ write_chan_capacity)
        × (send_message (5 ∷ []) busy ≡ err blocked))
    ⊎ ((busy.writer ≡ selecting)
        × (length busy.write_chan < write_chan_capacity)
        × (send_message (5 ∷ []) busy
            ≡ ok (record busy {
              write_chan = (9 ∷ []) ∷ (5 ∷ []) ∷ [];
              accepted = (8 ∷ []) ∷ (9 ∷ []) ∷ (5 ∷ []) ∷ [];
            })))
send_message_cases_example = send_message_cases (bytes "c") true busy (5 ∷ []) busy-Reaches

send_message_fatal_example :
    (d : Running) × Reaches busy d × (d.known ≡ true) × (send_message (5 ∷ []) d ≡ panic)
send_message_fatal_example = send_message_fatal busy (5 ∷ []) refl
