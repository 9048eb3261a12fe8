-- ===== src/Tests/Wire.antt =====
-- The packets of crates/bootycall-tftp at concrete inputs.
use booty_call.Prelude.{◌≡◌, refl, true, none, some, List, [], ◌∷◌, All, arith}
use booty_call.Prelude.Bytes.{codes}
use booty_call.Tftp.Wire.{Bytes, Pair, make_rrq_packet}
use booty_call.Tftp.Wire.RoundTrip.{IsText, IsTextPair}
use booty_call.Tftp.Request.{parse_rrq}
use booty_call.Tftp.Request.RoundTrip.{
  Asked, IsAskable, asked_options, asked_request, parse_rrq-asked,
}

abbrev octet : Bytes
octet = codes "octet"

octet-IsText : IsText octet
unfolding booty_call.Text.Utf8.is_utf8
octet-IsText = record {
  utf8 = refl;
  no_nul = (omega arith, (omega arith, (omega arith, (omega arith, (omega arith, tt)))));
}

abbrev name : Bytes
name = codes "a.efi"

name-IsText : IsText name
unfolding booty_call.Text.Utf8.is_utf8
name-IsText = record {
  utf8 = refl;
  no_nul = (omega arith, (omega arith, (omega arith, (omega arith, (omega arith, tt)))));
}

abbrev options : List Pair
options = (name, octet) ∷ []

options-IsText : All IsTextPair options
options-IsText = ((name-IsText, octet-IsText), tt)

abbrev asked : Asked
asked = record { blksize = some 1400; timeout = none; tsize = true; windowsize = some 8 }

asked-IsAskable : IsAskable asked
asked-IsAskable = record { blksize = omega arith; timeout = tt; windowsize = omega arith }

asked_example :
    parse_rrq (make_rrq_packet name octet (asked_options asked))
    ≡ some (asked_request name octet asked)
asked_example = parse_rrq-asked name octet asked name-IsText octet-IsText asked-IsAskable
