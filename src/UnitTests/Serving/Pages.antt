-- ===== src/UnitTests/Serving/Pages.antt =====
-- A query of the pages that the server task of the paging test sends.
use bluesdp.Prelude.{All, ℕ, ◌≤◌, ◌≡◌, List, [], length}
use bluesdp.Nom.{Nom, IsLawful}
use bluesdp.Buf.{Buf, IsAppending}
use bluesdp.Transport.Session.Steps.{Loop, Reach}
use bluesdp.UnitTests.Duplex.{Runtime, IsDuplex}
use bluesdp.UnitTests.Serving.{Serving}

module _ {E B F X J S : Type 0} (n : Nom E B) (lawful : IsLawful n) (b : Buf F)
    (appending : IsAppending b) (rt : Runtime X J (List (List ℕ)) S) (law : IsDuplex rt)
    (u capacity : ℕ) (large : 275 ≤ capacity) where
  -- The server has these pages left, has seen these states, and nothing is on its way.
  abbrev AtServer : List (List ℕ) → List (List ℕ) → S → Type 0
  AtServer pdus seen = Serving rt law capacity pdus seen []

  -- Each page has room in the stream.
  abbrev pub Fit : List (List ℕ) → Type 0
  Fit = All λ pdu. length pdu ≤ capacity

  -- A round that the query comes to, with these attribute bytes and this continuation state.
  record Round (s : S) (attributes state : List ℕ) (pdus seen : List (List ℕ)) : Type 0 where
    pub rounds : ℕ
    pub loop : Loop S
    pub reach : Reach n b rt.client u s rounds loop
    pub gathered : loop.attribute_bytes ≡ attributes
    pub goes : loop.continuation_state ≡ state
    pub at : AtServer pdus seen loop.outside
