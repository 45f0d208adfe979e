-- ===== src/Tests/Fixtures.antt =====
-- The PDUs of src/tests/fixtures that the tests run on, as hexadecimal digits.
use Prim.Native.Char.{code}
use bluesdp.Prelude.{ℕ, ◌+◌, ◌-◌, ◌*◌, List, [], ◌∷◌, ltb, if◌then◌else◌}
use bluesdp.Prelude.Text.{String, ◌<>◌}

-- The value of a digit, of which the letters are small.
abbrev nibble : ℕ → ℕ
nibble c = if ltb c 97 then c - 48 else c - 87

abbrev pub bytes : String → List ℕ
bytes (String.◌∷◌ high (String.◌∷◌ low text)) =
    (nibble (code high) * 16 + nibble (code low)) ∷ bytes text
bytes _ = []

abbrev pub pbap_request : String
pbap_request = "060000000f350319112fffff35050a0000ffff00"

abbrev pub pbap_response : String
pbap_response =
    "07000000990096359435920900000a4f49112f090001350319112f0900020a000000000900043511"
    <> "35031901003505190003080d35031900080900053503191002090006352409656e09006a09010009"
    <> "667209006a09011009646509006a090120096a6109006a09013009000808ff090009350835061911"
    <> "30090102090100250950686f6e65626f6f6b09020009100309031408090903170a0000000f00"

abbrev pub map_request : String
map_request = "060000000f3503191132ffff35050a0000ffff00"

abbrev pub map_response : String
map_response =
    "07000000a0009d359b35990900000a4f49113209000135031911320900020a000000000900043511"
    <> "35031901003505190003080235031900080900053503191002090006352409656e09006a09010009"
    <> "667209006a09011009646509006a090120096a6109006a09013009000808ff090009350835061911"
    <> "34090104090100250b4d4150204d41532d694f53090200091007090315080009031608020903170a"
    <> "0006027f00"

abbrev pub browse_page0_request : String
browse_page0_request = "060000000f3503191002ffff35050a0000ffff00"

abbrev pub browse_page0_response : String
browse_page0_response =
    "07000000fb00f636073d356f0900000a4f49180109000135031918010900020a0000000009000435"
    <> "13350619010009001f350919000709000109000e0900053503191002090006352409656e09006a09"
    <> "010009667209006a09011009646509006a090120096a6109006a09013009000808ff090100250447"
    <> "41545435930900000a4f49ee8009000135111c1ff31936572e4b36a2bfb2409b1aa6f40900020a00"
    <> "000000090004350835061901000910090900053503191002090006352409656e09006a0901000966"
    <> "7209006a09011009646509006a090120096a6109006a09013009000808ff090009351635141c4b6f"
    <> "7c7407f449deb0b9ab4304728f0200f3"

abbrev pub browse_page1_request : String
browse_page1_request = "06000100113503191002ffff35050a0000ffff0200f3"

abbrev pub browse_page1_response : String
browse_page1_response =
    "07000100fb00f629090100090100250a41415020436c69656e7435990900000a4f49113209000135"
    <> "031911320900020a0000000009000435113503190100350519000308023503190008090005350319"
    <> "1002090006352409656e09006a09010009667209006a09011009646509006a090120096a6109006a"
    <> "09013009000808ff09000935083506191134090104090100250b4d4150204d41532d694f53090200"
    <> "091007090315080009031608020903170a0006027f35ca0900000a4f491116090001350319111609"
    <> "00020a00000007090004351e350619010009000f351419000f090100350c09080009080609810009"
    <> "86dd09000535031910020900060201e9"

abbrev pub browse_page2_request : String
browse_page2_request = "06000200113503191002ffff35050a0000ffff0201e9"

abbrev pub browse_page2_response : String
browse_page2_response =
    "07000200fb00f6352409656e09006a09010009667209006a09011009646509006a090120096a6109"
    <> "006a090130090008080009000935083506191116090100090100251a50414e204e6574776f726b20"
    <> "4163636573732050726f66696c6509010125144e6574776f726b2041636365737320506f696e7409"
    <> "030a09000109030b09000d09030c0a0003e800358e0900000a4f49525809000135111c020303021d"
    <> "19415f86f222a2106a0a770900020a00000000090004350c35031901003505190003080109000535"
    <> "03191002090006352409656e09006a09010009667209006a09011009646509006a090120096a6109"
    <> "006a09013009000808ff0900090202df"

abbrev pub browse_page3_request : String
browse_page3_request = "06000300113503191002ffff35050a0000ffff0202df"

abbrev pub browse_page3_response : String
browse_page3_response =
    "07000300fb00f635083506191101090102090100250f576972656c65737320694150207632358b09"
    <> "00000a4f49523809000135111c00000000decafadedecadeafdecacafe0900020a00000000090004"
    <> "350c3503190100350519000308010900053503191002090006352409656e09006a09010009667209"
    <> "006a09011009646509006a090120096a6109006a09013009000808ff090009350835061911010901"
    <> "02090100250c576972656c6573732069415035a40900000a4f49110e090001350619110e19110f09"
    <> "00020a00000000090004351035061901000900173506190017090104090005350319100209000635"
    <> "2409656e09006a0901000966720203d5"

abbrev pub browse_page4_request : String
browse_page4_request = "06000400113503191002ffff35050a0000ffff0203d5"

abbrev pub browse_page4_response : String
browse_page4_response =
    "07000400fb00f609006a09011009646509006a090120096a6109006a09013009000808ff09000935"
    <> "08350619110e090105090100250c415652435020446576696365090101251552656d6f746520436f"
    <> "6e74726f6c2044657669636509031109000235c70900000a4f49110c090001350319110c0900020a"
    <> "00000000090004351035061901000900173506190017090104090005350319100209000635240965"
    <> "6e09006a09010009667209006a09011009646509006a090120096a6109006a09013009000808ff09"
    <> "00093508350619110e09010609000d35213510350619010009001b3506190017090104350d350619"
    <> "010009100535031900080901000204cb"

abbrev pub browse_page5_request : String
browse_page5_request = "06000500113503191002ffff35050a0000ffff0204cb"

abbrev pub browse_page5_response : String
browse_page5_response =
    "07000500f900f4250c415652435020446576696365090101251552656d6f746520436f6e74726f6c"
    <> "204465766963650903110901d135870900000a4f49110a090001350319110a0900020a0000000009"
    <> "00043510350619010009001935061900190901030900053503191002090006352409656e09006a09"
    <> "010009667209006a09011009646509006a090120096a6109006a09013009000808ff090009350835"
    <> "0619110d090103090100250c417564696f20536f7572636509031109000135920900000a4f49112f"
    <> "090001350319112f0900020a00000000090004351135031901003505190003080d35031900080900"
    <> "05350319100209000635240205bf"

abbrev pub browse_page6_request : String
browse_page6_request = "06000600113503191002ffff35050a0000ffff0205bf"

abbrev pub browse_page6_response : String
browse_page6_response =
    "07000600fb00f609656e09006a09010009667209006a09011009646509006a090120096a6109006a"
    <> "09013009000808ff09000935083506191130090102090100250950686f6e65626f6f6b0902000910"
    <> "0309031408090903170a0000000f35900900000a4f49111f090001350619111f1912030900020a00"
    <> "000000090004350c3503190100350519000308080900053503191002090006352409656e09006a09"
    <> "010009667209006a09011009646509006a090120096a6109006a09013009000808ff090009350835"
    <> "0619111e090108090100251148616e6473667265652047617465776179090301080109031109002f"
    <> "35930900000a4f4912000900010206b5"

abbrev pub browse_page7_request : String
browse_page7_request = "06000700113503191002ffff35050a0000ffff0206b5"

abbrev pub browse_page7_response : String
browse_page7_response =
    "070007008b008835031912000900020a000000000900053503191002090006352409656e09006a09"
    <> "010009667209006a09011009646509006a090120096a6109006a09013009000808ff090101250f50"
    <> "6e5020496e666f726d6174696f6e09020009010209020109004c09020209761e0902030911600902"
    <> "04280109020509000109a0000a00a026c409afff09000100"
