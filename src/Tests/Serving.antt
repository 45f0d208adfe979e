-- ===== src/Tests/Serving.antt =====
-- The theorem on the server task of the paging test, at a response of two pages.
use bluesdp.Prelude.{ℕ, List}
use bluesdp.UnitTests.Duplex.{Runtime}
use bluesdp.UnitTests.Memory.{Never, Both, in_memory}

-- Two buffers of 8192 bytes, as in the sources.
abbrev runtime : Runtime Never Never (List (List ℕ)) (Both (List (List ℕ)))
runtime = in_memory
