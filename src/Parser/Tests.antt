-- ===== src/Parser/Tests.antt =====
-- Runs of the parser, and its theorems at concrete buffers.
use cs_144_minnow_tcp.Base.{◌≡◌, refl, false, none, [], ◌∷◌, arith}
use cs_144_minnow_tcp.Parser.{BufferList, Parser, string}
use cs_144_minnow_tcp.Parser.Inv.{IsValid}
use cs_144_minnow_tcp.Parser.Reading.{Refines}
use cs_144_minnow_tcp.Parser.Copy.{string-flat}
use cs_144_minnow_tcp.Parser.Truncate.{left_after, left_after_cut}

-- Three of five bytes of the first buffer are read.
abbrev read_some : BufferList
read_some = record { size = 4; buffer = (1 ∷ 2 ∷ 3 ∷ 4 ∷ 5 ∷ []) ∷ (6 ∷ 7 ∷ []) ∷ []; skip = 3 }

read_some-IsValid : IsValid read_some
read_some-IsValid = record {
  fits = (omega arith, omega arith, (omega arith, omega arith, tt));
  counted = refl;
  bounded = omega arith;
}

abbrev parser : Parser
parser = record { input = read_some; error = false }

-- Asked to keep two of the four bytes, it throws.
left_after_cut_example : left_after read_some 2 ≡ none
left_after_cut_example = left_after_cut read_some 2 read_some-IsValid

string-flat_example : Refines (string (0 ∷ 0 ∷ 0 ∷ []) parser) (4 ∷ 5 ∷ 6 ∷ [], 7 ∷ [], false)
string-flat_example = string-flat (0 ∷ 0 ∷ 0 ∷ []) parser read_some-IsValid
