-- ===== src/Sha/Tests.antt =====
-- Runs of helpers/sha256.hpp on the vectors of test/test_cap_schema.cpp.
use droneengage_common.Common.{ℕ, ◌≡◌, refl, List, [], All, flatten}
use droneengage_common.Cap.Schema.{codes}
use droneengage_common.Sha.Words.{Words, transform}
use droneengage_common.Sha.Stream.{sha256_hex, sha256}
use droneengage_common.Sha.Padding.{IsBlock}
use droneengage_common.Sha.Blocks.{padded, sha256-IsHashed}
use droneengage_common.Sha.Standard.{IsHashed, standard_words, standard_digest}

empty_vector : sha256_hex [] ≡ "e3b0c44298fc1c149afbf4c8996fb92427ae41e4649b934ca495991b7852b855"
unfolding sha256_hex transform
empty_vector = refl

abc_vector :
    sha256_hex (codes "abc") ≡ "ba7816bf8f01cfea414140de5dae2223b00361a396177a9cb410ff61f20015ad"
unfolding sha256_hex transform
abc_vector = refl

two_block_vector :
    sha256_hex (codes "abcdbcdecdefdefgefghfghighijhijkijkljklmklmnlmnomnopnopq")
    ≡ "248d6a61d20638b8e5c026930c3e6039a33ce45964ff2167f6ecedd419db06c1"
unfolding sha256_hex transform
two_block_vector = refl

sha256-IsHashed_example :
    (blocks : List (List ℕ)) × (words : Words) × All IsBlock blocks
    × (flatten blocks ≡ padded (codes "abc"))
    × IsHashed standard_words blocks words
    × (sha256 (codes "abc") ≡ standard_digest words)
sha256-IsHashed_example = sha256-IsHashed (codes "abc")
