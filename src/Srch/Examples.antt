-- ===== src/Srch/Examples.antt =====
-- Tests and concrete instances for entries of the search index.
use scoutfs.Srch.{
  Buffer, IsEntry, SrchEntry, decode_entry, encode_entry, encode_u64, fls, sre_cmp, sre_dec,
  sre_inc, zigzag,
}
use scoutfs.Srch.Entry.{decode_entry-encode_entry}
use scoutfs.Srch.Cmp.{sre_cmp-value, sre_inc-value, sre_value}
use scoutfs.Key.{cmp}
use scoutfs.Srch.Track.{
  Tracked, drop_last, erase_node, insert_node, is_after_last, is_tracked, search_entries,
  search_entry, set_end_before, split_last, track_found,
}
use scoutfs.Prelude.{Bool, List, [], arith, ok, refl, true, ℕ, ◌%◌, ◌+◌, ◌-◌, ◌^◌, ◌∷◌, ◌≡◌}

abbrev first_entry : SrchEntry
first_entry = record { hash = 77; ino = 300; id = 2 ^ 64 - 1 }

abbrev second_entry : SrchEntry
second_entry = record { hash = 77; ino = 290; id = 0 }

first_entry-IsEntry : IsEntry first_entry
first_entry-IsEntry = omega arith

second_entry-IsEntry : IsEntry second_entry
second_entry-IsEntry = omega arith

abbrev no_bytes : Buffer
no_bytes at = 0

-- No byte for an equal hash, one for the smaller inode number, one for an id that wraps around.
lengths_of_second : (encode_entry no_bytes 0 second_entry first_entry).1 ≡ 4
unfolding encode_entry encode_u64 zigzag fls
lengths_of_second = refl

inc_carries : sre_inc first_entry ≡ record { hash = 77; ino = 301; id = 0 }
unfolding sre_inc
inc_carries = refl

decode_entry-encode_entry_example :
    decode_entry (encode_entry no_bytes 10 second_entry first_entry).0 10 first_entry
    ≡ (second_entry, (encode_entry no_bytes 10 second_entry first_entry).1)
decode_entry-encode_entry_example =
    decode_entry-encode_entry no_bytes 10 second_entry first_entry second_entry-IsEntry
      first_entry-IsEntry

sre_cmp-value_example :
    sre_cmp second_entry first_entry ≡ cmp (sre_value second_entry) (sre_value first_entry)
sre_cmp-value_example =
    sre_cmp-value second_entry first_entry second_entry-IsEntry first_entry-IsEntry

sre_inc-value_example : sre_value (sre_inc first_entry) ≡ (sre_value first_entry + 1) % 2 ^ 192
sre_inc-value_example = sre_inc-value first_entry first_entry-IsEntry

abbrev searched : SrchEntry
searched = record { hash = 5; ino = 1; id = 0 }

abbrev nothing_found : Tracked
nothing_found = record { nodes = []; end = record { hash = 5; ino = 100; id = 2 ^ 64 - 1 } }

abbrev log_entry : ℕ → ℕ → SrchEntry × Bool
log_entry ino id = (record { hash = 5; ino = ino; id = id }, true)

-- Inode 9 was removed again, and of the other three the limit leaves two.
abbrev some_log : List (SrchEntry × Bool)
some_log = log_entry 9 1 ∷ log_entry 20 1 ∷ log_entry 9 1 ∷ log_entry 30 0 ∷ log_entry 10 7 ∷ []

sweeps_log :
    search_entries searched 2 some_log nothing_found
    ≡ ok (record {
      nodes = record { ino = 10; id = 7 } ∷ record { ino = 20; id = 1 } ∷ [];
      end = record { hash = 5; ino = 29; id = 2 ^ 64 - 1 };
    })
unfolding search_entries search_entry track_found is_tracked erase_node insert_node is_after_last
    split_last set_end_before drop_last sre_cmp sre_dec
sweeps_log = refl
