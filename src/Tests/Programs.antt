-- ===== src/Tests/Programs.antt =====
-- Runs of the programs under examples/.
use foxy.Base.{
  ℕ, ◌≤◌, ◌≡◌, ◌↔◌, refl, none, some, inl, inr, false, List, [], ◌∷◌, ◌++◌, ◌>>=◌, codes, All,
  arith,
}
use foxy.Net.{ErrorCode, success, eof, is_error}
use foxy.X3.Reference.{reference}
use foxy.Utf8.{utf8_encode_range}
use foxy.Utf8.Reference.{utf_reference, karma_reference}
use foxy.Pct.Decode.{pct_decode}
use foxy.UriParts.{UriParts, no_parts}
use foxy.ParseUri.{parse_complete}
use foxy.X3.Grammar.{lit, is_digit}
use foxy.Uri.Raw.{raw}
use foxy.Uri.Items.{Stops}
use foxy.Tests.Printing.{loopback-IsAddress}
use foxy.Examples.Fleet
use foxy.Examples.Fleet.{posted, no_requests, num_clients}
use foxy.Examples.Fleet.Shutdown.{IsDone, run-shutdowns, run-never_shut_down}
use foxy.Examples.Search.{google, search_target}
use foxy.Examples.Search.Target.{search_target-decode}
use foxy.Examples.IpParser.{listed}
use foxy.Examples.IpParser
use foxy.Examples.IpParser.Listed.{main-listed}

-- Two clients connect, and one of them has a response.
abbrev opening : List (ℕ × ErrorCode)
opening = (0, success) ∷ (1, success) ∷ (1, success) ∷ []

run-shutdowns_example :
    ((Fleet.run opening (posted num_clients) no_requests).1.shutdowns ≤ 1)
    × (((Fleet.run opening (posted num_clients) no_requests).1.shutdowns ≡ 1)
        ↔ All IsDone (Fleet.run opening (posted num_clients) no_requests).0)
run-shutdowns_example = run-shutdowns opening

run-never_shut_down_example :
    (Fleet.run
      (opening ++ ((1, eof) ∷ (0, success) ∷ []))
      (posted num_clients)
      no_requests).1.shutdowns
    ≡ 0
unfolding Fleet.run posted is_error
run-never_shut_down_example = run-never_shut_down opening ((0, success) ∷ []) 1 eof refl (inr refl)

-- "ñ &".
search_target-decode_example :
    (p : UriParts) × (parse_complete reference
        (codes "https://www.google.com"
          ++ search_target utf_reference karma_reference
              (utf8_encode_range utf_reference (0xf1 ∷ b' ' ∷ b'&' ∷ []) []))
        no_parts
      ≡ some p)
    × (p.host ≡ google)
    × (p.path ≡ codes "/webhp")
    × (p.fragment ≡ [])
    × (pct_decode reference p.query []
        ≡ (utf8_encode_range utf_reference (0xf1 ∷ b' ' ∷ b'&' ∷ []) [], none))
search_target-decode_example =
    search_target-decode utf_reference karma_reference reference (0xf1 ∷ b' ' ∷ b'&' ∷ []) (
      (((omega arith), inl (omega arith)), omega arith),
      (
        ((omega arith, inl (omega arith)), omega arith),
        (((omega arith, inl (omega arith)), omega arith), tt),
      ),
    )

slash-Stops : Stops is_digit (codes "/8")
unfolding is_digit
slash-Stops = (omega arith, omega arith, refl)

slash-ends :
    (reference.parse (lit (codes ",")) (codes "/8") >>= raw reference IpParser.address) ≡ none
unfolding reference
slash-ends = refl

main-listed_example :
    IpParser.main reference (codes "--addresses=127.0.0.1,127.0.0.1/8" ∷ [])
    ≡ record { complained = false; ending = listed (codes "127.0.0.1" ∷ codes "127.0.0.1" ∷ []) }
main-listed_example =
    main-listed reference (codes "127.0.0.1") (codes "127.0.0.1" ∷ []) (codes "/8")
      (loopback-IsAddress, (loopback-IsAddress, tt)) slash-Stops slash-ends
