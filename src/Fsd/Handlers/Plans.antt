-- ===== src/Fsd/Handlers/Plans.antt =====
-- fsd/util.go: the flight plan packets that the server builds against the section that it extracts.
use openfsd.Prelude.{◌≡◌, ◌≢◌, refl, ap, ◌∙◌, List, [], ◌∷◌, ◌++◌, some, arith, All, length}
use mathlib.Core.List.{append_assoc}
use openfsd.Prelude.Bytes.{Bytes, codes, crlf, cut_crlf, cut_crlf-append, bytes_eq}
use openfsd.Packet.Fields.{colon, rebase_times}
use openfsd.Packet.Fields.Split.{rebase-append}
use openfsd.Packet.Types.{
  get_packet_type, dollar_type, first_three, flight_plan, flight_plan_amendment,
}
use openfsd.Fsd.Handlers.Query.{
  build_file_flightplan_packet, build_amend_flightplan_packet, extract_flightplan_info_section,
}

-- No colon in a callsign.
abbrev pub IsColonless : Bytes → Type 0
IsColonless s = All (λ c. c ≢ colon) s

-- Fields behind each other, each with its colon.
abbrev fields : List Bytes → Bytes → Bytes
fields [] rest = rest
fields (f ∷ fs) rest = f ++ colon ∷ fields fs rest

rebase_times-fields :
    (fs : List Bytes) (rest : Bytes)
    → All IsColonless fs
    → rebase_times (length fs) (fields fs rest) ≡ rest
unfolding rebase_times
rebase_times-fields [] rest h = refl
rebase_times-fields (f ∷ fs) rest (p, h) =
    ap (rebase_times (length fs)) (rebase-append f (fields fs rest) p)
    ∙ rebase_times-fields fs rest h

file_fields :
    (source recipient info : Bytes)
    → build_file_flightplan_packet source recipient info
      ≡ fields ((codes "$FP" ++ source) ∷ recipient ∷ []) (info ++ crlf)
unfolding build_file_flightplan_packet
file_fields source recipient info = simp append_assoc

amend_fields :
    (source recipient target info : Bytes)
    → build_amend_flightplan_packet source recipient target info
      ≡ fields ((codes "$AM" ++ source) ∷ recipient ∷ target ∷ []) (info ++ crlf)
unfolding build_amend_flightplan_packet
amend_fields source recipient target info = simp append_assoc

file_type :
    (source recipient info : Bytes)
    → get_packet_type (build_file_flightplan_packet source recipient info) ≡ some flight_plan
unfolding build_file_flightplan_packet get_packet_type dollar_type first_three bytes_eq
file_type source recipient info = refl

amend_type :
    (source recipient target info : Bytes)
    → get_packet_type (build_amend_flightplan_packet source recipient target info)
      ≡ some flight_plan_amendment
unfolding build_amend_flightplan_packet get_packet_type dollar_type first_three bytes_eq
amend_type source recipient target info = refl

prefixed :
    (f : Bytes) → IsColonless f → IsColonless (codes "$FP" ++ f) × IsColonless (codes "$AM" ++ f)
prefixed f h = (
  ((omega arith), ((omega arith), ((omega arith), h))),
  ((omega arith), ((omega arith), ((omega arith), h))),
)

-- The flight plan that the server puts into a packet is the one that it extracts from that packet,
-- both for a filed plan and for an amendment: every byte of it, colons included. The callsigns
-- round it hold no colon.
pub extract-build_flightplan :
    (source recipient target info : Bytes)
    → IsColonless source
    → IsColonless recipient
    → IsColonless target
    → (extract_flightplan_info_section (build_file_flightplan_packet source recipient info) ≡ info)
      × (extract_flightplan_info_section
            (build_amend_flightplan_packet source recipient target info)
          ≡ info)
unfolding extract_flightplan_info_section
extract-build_flightplan source recipient target info hs hr ht = (
  rw (file_type source recipient info) (
      ap (λ p. cut_crlf (rebase_times 2 p)) (file_fields source recipient info)
      ∙ ap cut_crlf (
          rebase_times-fields ((codes "$FP" ++ source) ∷ recipient ∷ []) (info ++ crlf)
            ((prefixed source hs).0, (hr, tt)))
      ∙ cut_crlf-append info),
  rw (amend_type source recipient target info) (
      ap (λ p. cut_crlf (rebase_times 3 p)) (amend_fields source recipient target info)
      ∙ ap cut_crlf (
          rebase_times-fields ((codes "$AM" ++ source) ∷ recipient ∷ target ∷ []) (info ++ crlf)
            ((prefixed source hs).1, (hr, (ht, tt))))
      ∙ cut_crlf-append info),
)
