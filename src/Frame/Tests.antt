-- ===== src/Frame/Tests.antt =====
-- The theorems on frame headers at concrete inputs.
use wsclient.Base.{some, [], ◌∷◌, ◌++◌, ◌≡◌, arith, true}
use wsclient.FastXor.{Key}
use wsclient.Frame.{parse_header, frame_header, text_frame}
use wsclient.Frame.RoundTrip.{sent_header, parse_header-frame_header}

abbrev sample_key : Key
sample_key = record { k0 = 1; k1 = 2; k2 = 3; k3 = 4 }

parse_header-frame_header_example :
    parse_header (frame_header text_frame 300 true sample_key ++ (7 ∷ []))
    ≡ some (sent_header text_frame 300 true sample_key)
parse_header-frame_header_example =
    parse_header-frame_header text_frame 300 true sample_key (7 ∷ []) (omega arith) (omega arith)
