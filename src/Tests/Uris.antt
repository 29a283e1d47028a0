-- ===== src/Tests/Uris.antt =====
-- Texts for src/parse_uri.cpp.
use foxy.Base.{◌≡◌, refl, some, Text, codes, All, arith}
use foxy.X3.Reference.{reference}
use foxy.Uri.Standard
use foxy.Uri.Unicode
use foxy.UriParts.{UriParts, no_parts}
use foxy.ParseUri.{
  standard_rules, parse_complete, parse_complete_u32, parse_uri, parse_uri_u32, parse_authority,
  parse_authority_u32,
}
use foxy.ParseUri.Safe.{standard-AreSafe}
use foxy.ParseUri.Rebuild.{Rebuilds}
use foxy.ParseUri.Complete.{parse_complete-Rebuilds}
use foxy.X3.Ascii.{IsAscii}
use foxy.ParseUri.Encodings.{parse_uri-agree}

abbrev full : Text
full = codes "http://u@www.foxy.com:80/a/%41?b#c"

abbrev full_parts : UriParts
full_parts = record {
  scheme = codes "http";
  host = codes "www.foxy.com";
  port = codes "80";
  path = codes "/a/%41";
  query = codes "b";
  fragment = codes "c";
}

full-parse_complete : parse_complete reference full no_parts ≡ some full_parts
unfolding parse_complete reference Standard.scheme Standard.userinfo Standard.host
    Standard.path_abempty Standard.port Standard.query Standard.fragment
full-parse_complete = refl

parse_complete-Rebuilds_example : Rebuilds reference standard_rules standard-AreSafe full full_parts
parse_complete-Rebuilds_example =
    parse_complete-Rebuilds reference full full_parts full-parse_complete

full-parse_complete_u32 : parse_complete_u32 reference full no_parts ≡ some full_parts
unfolding parse_complete_u32 reference Unicode.scheme Unicode.userinfo Unicode.host
    Unicode.path_abempty Unicode.port Unicode.query Unicode.fragment
full-parse_complete_u32 = refl

abbrev host_and_port : Text
host_and_port = codes "a.b:80"

host_and_port-IsAscii : All IsAscii host_and_port
host_and_port-IsAscii = omega arith

parse_uri-agree_example :
    (parse_complete reference host_and_port no_parts
      ≡ parse_complete_u32 reference host_and_port no_parts)
    × (parse_authority reference host_and_port no_parts
        ≡ parse_authority_u32 reference host_and_port no_parts)
    × (parse_uri reference host_and_port ≡ parse_uri_u32 reference host_and_port)
parse_uri-agree_example = parse_uri-agree reference host_and_port host_and_port-IsAscii
