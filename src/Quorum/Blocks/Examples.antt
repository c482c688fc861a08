-- ===== src/Quorum/Blocks/Examples.antt =====
-- The reads of the blocks of three slots, and the checks of a configuration of two.
use scoutfs.Quorum.Slots.Config.{verify_quorum_slots-IsConfig}
use scoutfs.Quorum.{begin_event, elect_event, end_event, fence_event, stop_event, term_event}
use scoutfs.Quorum.Blocks.Greatest.{IsGreatestTerm, read_greatest_term-IsGreatestTerm}
use scoutfs.Quorum.Blocks.{
  Block, BlockEvent, Mount, quorum_magic, read_greatest_term, read_quorum_block,
  scoutfs_quorum_server_sin, server_from,
}
use scoutfs.Quorum.Slots.{
  Ipv4, IsConfig, Slot, check_slots, has_same, quorum_slot_present, valid_ipv4_port,
  valid_ipv4_unicast, verify_quorum_slots,
}
use scoutfs.Prelude.{
  List, [], if◌then◌else◌, leb, ltb, ok, refl, some, true, ℕ, ◌&&◌, ◌==◌, ◌||◌, ◌∷◌, ◌≡◌,
}

-- The blocks of three slots: slot 2 was elected in term 3 and still runs.
abbrev event_of : ℕ → ℕ → BlockEvent
event_of rid term = record { write_nr = 1; rid = rid; term = term; ts_sec = 0; ts_nsec = 0 }

abbrev slot_block : ℕ → ℕ → ℕ → ℕ → Block
slot_block blkno rid elect_term stop_term = record {
  crc = 7;
  magic = quorum_magic;
  fsid = 5;
  blkno = blkno;
  write_nr = 1;
  events = λ e. event_of rid (elim e [
    | begin_event ↦ 1
    | term_event ↦ 2
    | elect_event ↦ elect_term
    | fence_event ↦ 0
    | stop_event ↦ stop_term
    | end_event ↦ 0
  ]);
}

abbrev stopped_block : Block
stopped_block = slot_block 17 100 2 2

abbrev running_block : Block
running_block = slot_block 19 102 3 0

abbrev three_mount : Mount
three_mount = record {
  fsid = 5;
  rid = 100;
  present = λ i. i == 0 || i == 2;
  read_sm = λ n. if n == 17 then ok (stopped_block, 7) else ok (running_block, 7);
}

read_greatest_term-IsGreatestTerm_example :
    IsGreatestTerm three_mount (read_greatest_term three_mount)
read_greatest_term-IsGreatestTerm_example = read_greatest_term-IsGreatestTerm three_mount

server_is_slot_2 : scoutfs_quorum_server_sin three_mount ≡ ok (some 2)
unfolding scoutfs_quorum_server_sin server_from read_quorum_block
server_is_slot_2 = refl

abbrev any_ipv4 : Ipv4
any_ipv4 = record {
  is_multicast = λ a. leb 3758096384 a && ltb a 4026531840;
  is_lbcast = λ a. a == 4294967295;
  is_zeronet = λ a. ltb a 16777216;
  is_local_multicast = λ a. leb 3758096384 a && ltb a 3758096640;
}

abbrev two_slots : List Slot
two_slots =
    record { is_ipv4 = true; addr = 2130706433; port = 42000 }
    ∷ record { is_ipv4 = true; addr = 2130706433; port = 42001 }
    ∷ []

verify_quorum_slots-IsConfig_example : IsConfig any_ipv4 two_slots 1 1
unfolding verify_quorum_slots check_slots has_same valid_ipv4_unicast valid_ipv4_port
    quorum_slot_present
verify_quorum_slots-IsConfig_example = verify_quorum_slots-IsConfig any_ipv4 two_slots 1 1 refl
