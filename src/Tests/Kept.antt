-- ===== src/Tests/Kept.antt =====
-- The theorem on what a query preserves, at the device in memory: its requests stay short.
use bluesdp.Prelude.{
  ℕ, ◌≤◌, ◌≡◌, refl, sym, subst, List, [], ◌∷◌, ◌++◌, arith, Result, ok, err, out_of_fuel, length,
  All, All-append,
}
use bluesdp.Io.{Elapsed}
use bluesdp.Codec.Encode.Layout.{pdu_bytes}
use bluesdp.Transport.Session.{request_for, find_rfcomm_channel}
use bluesdp.Transport.Session.Preserved.{IsKept, find_rfcomm_channel-keeps}
use bluesdp.Tests.Parsers.{parsers, parsers-IsLawful, buffer, buffer-IsAppending}
use bluesdp.Tests.Device.{World, write_all, deliver, cut_bytes, front, in_bytes, in_bytes-IsExact}
use bluesdp.Tests.Pages.{first_page, last_page}

abbrev IsShort : World → Type 0
IsShort w = All (λ (request : List ℕ). length request ≤ 275) w.requests

write_requests :
    (d : ℕ) (bytes : List ℕ) (w : World)
    → (write_all d bytes w).1.requests ≡ w.requests ++ bytes ∷ []
write_requests d bytes w = ground arith

deliver_requests :
    (r : Result Elapsed (List ℕ × List ℕ)) (w : World)
    → (deliver cut_bytes r w).1.requests ≡ w.requests
deliver_requests (ok p) w = refl
deliver_requests (err e) w = refl
deliver_requests out_of_fuel w = refl

in_bytes-IsKept : IsKept in_bytes 0x112f IsShort
in_bytes-IsKept = record {
  writes = λ t state w small short all.
      let request = pdu_bytes (request_for t 0x112f state) in
      subst (All λ (r : List ℕ). length r ≤ 275) (sym (write_requests 20000 request w)) (
        All-append (λ (r : List ℕ). length r ≤ 275) w.requests (request ∷ []) all
          (omega arith, tt));
  reads = λ k w small all.
      subst (All λ (r : List ℕ). length r ≤ 275) (sym (deliver_requests (front k w) w)) all;
}

abbrev fresh : World
fresh = record {
  refusals = 0;
  naps = [];
  pending = [];
  answers = first_page ∷ last_page ∷ [];
  requests = [];
}

find_rfcomm_channel-keeps_example :
    IsShort (find_rfcomm_channel parsers buffer in_bytes 0x112f 1 fresh).1
find_rfcomm_channel-keeps_example =
    find_rfcomm_channel-keeps parsers parsers-IsLawful buffer buffer-IsAppending in_bytes
      in_bytes-IsExact 0x112f IsShort in_bytes-IsKept 1 fresh tt
