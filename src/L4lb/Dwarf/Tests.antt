-- ===== src/L4lb/Dwarf/Tests.antt =====
-- The DWARF entries of the structs of lb.c.
use ncdn.Base.{◌≡◌, ◌↔◌, refl, map, none, some, List, [], ◌∷◌, inl}
use ncdn.Base.Int.{pos}
use ncdn.Base.Maps.{find_entry, put}
use ncdn.L4lb.Dwarf.{
  Entry, null, struct_type, member, other, start, read_entries, lb_assert_layout,
  stat_counters_offsets, lb_config_offsets, stat_counters_assert_layout, lb_config_assert_layout,
  assert_layout, assert_offsets, uintptr, offset_of, read_entry, read_outside, read_inside,
  read_struct, read_member,
}
use ncdn.L4lb.Dwarf.Read.{CStruct, entries_of, structs_of}
use ncdn.L4lb.Dwarf.Assert.{HasLayout, read_entries-lb_assert_layout}

abbrev stat_counters : CStruct
stat_counters = record {
  name = "stat_counters";
  size = pos 72;
  members =
      ("rx_packet_total", pos 0)
      ∷ ("rx_total_size", pos 8)
      ∷ ("too_short_packet_total", pos 16)
      ∷ ("non_ipv4_packet_total", pos 24)
      ∷ ("ip_option_packet_total", pos 32)
      ∷ ("non_supported_proto_packet_total", pos 40)
      ∷ ("no_vip_match_total", pos 48)
      ∷ ("failed_adjust_head_total", pos 56)
      ∷ ("failed_adjust_tail_total", pos 64)
      ∷ [];
}

abbrev lb_config : CStruct
lb_config = record {
  name = "lb_config";
  size = pos 8;
  members = ("vip_address", pos 0) ∷ ("num_dests", pos 4) ∷ [];
}

abbrev base_type : Entry
base_type = record {
  tag = other;
  attr_name = some "int";
  byte_size = some (pos 4);
  member_loc = none;
}

abbrev structs : List (List Entry × CStruct)
structs = ((base_type ∷ []), stat_counters) ∷ ([], lb_config) ∷ []

read_entries-lb_assert_layout_example :
    (read_entries start (entries_of structs) ≡ inl (structs_of [] structs))
    × ((lb_assert_layout (structs_of [] structs) ≡ none) ↔ (
        HasLayout (find_entry "stat_counters" (structs_of [] structs)) 72 stat_counters_offsets
        × HasLayout (find_entry "lb_config" (structs_of [] structs)) 8 lb_config_offsets))
read_entries-lb_assert_layout_example =
    read_entries-lb_assert_layout structs (((λ e. cc e), tt), (tt, tt))

layout_accepted : lb_assert_layout (structs_of [] structs) ≡ none
unfolding lb_assert_layout stat_counters_assert_layout lb_config_assert_layout assert_layout
    assert_offsets uintptr offset_of find_entry put
layout_accepted = refl

-- The null entry of a struct that stands inside another ends the outer one, which loses the members
-- after it.
abbrev nested : List Entry
nested =
    record {
      tag = struct_type;
      attr_name = some "outer";
      byte_size = some (pos 8);
      member_loc = none;
    }
    ∷ record {
      tag = struct_type;
      attr_name = some "inner";
      byte_size = some (pos 4);
      member_loc = none;
    }
    ∷ record { tag = member; attr_name = some "a"; byte_size = none; member_loc = some (pos 0) }
    ∷ record { tag = null; attr_name = none; byte_size = none; member_loc = none }
    ∷ record { tag = member; attr_name = some "b"; byte_size = none; member_loc = some (pos 4) }
    ∷ record { tag = null; attr_name = none; byte_size = none; member_loc = none }
    ∷ []

nested_members :
    read_entries start (map inl nested)
    ≡ inl (("outer", record { name = "outer"; size = pos 8; fields = ("a", pos 0) ∷ [] }) ∷ [])
unfolding read_entries read_entry read_outside read_inside read_struct read_member put
nested_members = refl
