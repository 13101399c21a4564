-- ===== src/Fsd/Tests/Packets.antt =====
-- fsd/client.go, fsd/handler.go: packets and connections at concrete inputs.
use openfsd.Prelude.{ℕ, ◌≡◌, ◌⊎◌, refl, true, false, ◌++◌, arith}
use openfsd.Prelude.Bytes.{Bytes, codes, crlf, bytes_eq}
use openfsd.Prelude.Int.{◌≤ℤ◌}
use openfsd.Callsign.Facility.{supervisor}
use openfsd.Fsd.Client.{Client, cancel}
use openfsd.Fsd.PostOffice.{World, lookup, modify, calculate_bounding_box, register}
use openfsd.Fsd.PostOffice.Invariant.{IsConsistent}
use openfsd.Fsd.Handlers.Query.{
  build_file_flightplan_packet, build_amend_flightplan_packet, extract_flightplan_info_section,
}
use openfsd.Fsd.Handlers.Plans.{extract-build_flightplan}
use openfsd.Prelude.Bytes.{cut_prefix, cut_crlf}
use openfsd.Packet.Fields.{
  count_fields, count_byte, get_field, rebase_times, rebase_to_next_field, index_byte, cut_at,
}
use openfsd.Packet.Types.{
  get_packet_type, hash_type, first_three, get_packet_prefix, source_callsign_field_index,
  min_fields,
}
use openfsd.Packet.Verify.{verify_packet, verify_source_callsign, get_source_callsign}
use openfsd.Fsd.Client.{send}
use openfsd.Fsd.PostOffice.{all_clients, each}
use openfsd.Fsd.Broadcast.{
  broadcast_all, broadcast_all_atc, broadcast_all_supervisors, anyone, is_controller, is_supervisor,
  deliver,
}
use openfsd.Fsd.Server.Everyone.{Tells, broadcasts_all_tell}
use openfsd.Fsd.Handlers.Text.{handle_delete}
use openfsd.Fsd.Server.{on_packet, handle}
use openfsd.Fsd.Server.Moves.{IsReal}
use openfsd.Fsd.Server.Packets.{on_packet_ends}
use openfsd.Fsd.Server.Steps.{
  Reachable, start, next, arrives, sends, arrive, Reachable-IsConsistent,
}
use openfsd.Fsd.Tests.{client, nobody, both, pilot_name, tower_name}
use openfsd.Fsd.Tests.ListTree.{flat, flat_laws}

-- Whole numbers have no value that differs from itself.
all-IsReal : (packet : Bytes) → IsReal flat flat_laws packet
all-IsReal packet = record {
  pilot_box = λ lat lon e. ground arith;
  atc_box = λ lat lon range e f. ground arith;
}

abbrev position : Bytes
position = codes "@N:N1:1200:1:30:10:5000:100:4:0" ++ crlf

-- The controller with its context ended.
abbrev closed : World flat
closed = modify flat 2 (cancel flat) both

abbrev deletion : Bytes
deletion = codes "#DPN1:SERVER:7" ++ crlf

abbrev sender : ℕ
sender = 1

abbrev after_deletion : World flat
after_deletion = on_packet flat 5 1 deletion both

deletion_closes : (after_deletion.clients 1).done ≡ true
unfolding on_packet handle handle_delete modify cancel register lookup bytes_eq verify_packet
    get_packet_type hash_type first_three count_fields count_byte verify_source_callsign
    get_source_callsign get_packet_prefix source_callsign_field_index cut_prefix get_field
    rebase_times rebase_to_next_field index_byte cut_at cut_crlf min_fields broadcast_all
    all_clients each deliver send
deletion_closes = refl

on_packet_ends_example :
    ((both.clients 1).done ≡ true)
    ⊎ ((sender ≡ sender) ⊎ (supervisor ≤ℤ (both.clients 1).network_rating))
on_packet_ends_example =
    on_packet_ends flat flat_laws 5 1 1 deletion both (all-IsReal deletion) deletion_closes

-- A pilot connects and sends its position.
connected : Reachable flat flat_laws (arrive flat flat_laws 1 (client pilot_name false 10) nobody)
unfolding lookup calculate_bounding_box
connected =
    next (start refl refl)
      (arrives 1 (client pilot_name false 10) (λ r. absurd (ground (arith, r))) refl)

abbrev moved : World flat
moved = on_packet flat 5 1 position (arrive flat flat_laws 1 (client pilot_name false 10) nobody)

Reachable-IsConsistent_example : IsConsistent flat flat_laws moved
unfolding register lookup bytes_eq modify
Reachable-IsConsistent_example =
    Reachable-IsConsistent flat flat_laws moved
      (next connected (sends 5 1 position refl (all-IsReal position)))

abbrev plan : Bytes
plan = codes "I:B738:420:KJFK:1200:1210:330:KLAX"

extract-build_flightplan_example :
    (extract_flightplan_info_section (build_file_flightplan_packet (codes "N1") (codes "*A") plan)
      ≡ plan)
    × (extract_flightplan_info_section
          (build_amend_flightplan_packet (codes "N1") (codes "*A") (codes "N2") plan)
        ≡ plan)
extract-build_flightplan_example =
    extract-build_flightplan (codes "N1") (codes "*A") (codes "N2") plan (omega arith) (omega arith)
      (omega arith)

-- A controller connects too, and both are told something.
abbrev tower : Client flat
tower = client tower_name true 12

abbrev with_pilot : World flat
with_pilot = arrive flat flat_laws 1 (client pilot_name false 10) nobody

abbrev with_both : World flat
with_both = arrive flat flat_laws 2 tower with_pilot

with_both-Reachable : Reachable flat flat_laws with_both
unfolding register lookup bytes_eq modify calculate_bounding_box
with_both-Reachable = next connected (arrives 2 tower (λ r. absurd (ground (arith, r))) refl)

broadcasts_all_tell_example :
    Tells flat (anyone flat) (codes "hi") with_both (broadcast_all flat 1 (codes "hi") with_both) 2
    × Tells flat
        (is_controller flat)
        (codes "hi")
        with_both
        (broadcast_all_atc flat 1 (codes "hi") with_both)
        2
    × Tells flat
        (is_supervisor flat)
        (codes "hi")
        with_both
        (broadcast_all_supervisors flat 1 (codes "hi") with_both)
        2
unfolding register lookup bytes_eq modify
broadcasts_all_tell_example =
    broadcasts_all_tell flat flat_laws with_both 1 2 (codes "hi") with_both-Reachable refl
      (omega arith)
