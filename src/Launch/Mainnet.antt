-- ===== src/Launch/Mainnet.antt =====
-- The ledger of the main network, in pallets/launch/src/lib.rs.
use timechain.Prelude.{ℕ, ◌*◌, List, [], ◌∷◌}
use timechain.Launch.{retired}
use timechain.Launch.Allocations.{
  ignore, team, airdrop, initiatives, ecosystem, analog, milli_analog,
}
use timechain.Launch.Ledger.{LaunchStage}

abbrev pub launch_version : ℕ
launch_version = 31

abbrev pub launch_ledger : List LaunchStage
launch_ledger =
    (0, ecosystem, 3100 * analog, retired)
    ∷ (1, ecosystem, 53030500 * analog, retired)
    ∷ (2, airdrop, 410168624 * analog, retired)
    ∷ (3, airdrop, 0, retired)
    ∷ (4, airdrop, 0, retired)
    ∷ (5, ecosystem, 39328063 * analog, retired)
    ∷ (6, ecosystem, 50 * analog, retired)
    ∷ (7, ecosystem, 226449338 * analog, retired)
    ∷ (8, airdrop, 20288873 * analog, retired)
    ∷ (9, ecosystem, 21111617 * analog, retired)
    ∷ (10, airdrop, 1373348 * analog, retired)
    ∷ (11, airdrop, 0, retired)
    ∷ (12, airdrop, 105317 * analog, retired)
    ∷ (13, ecosystem, 113204200 * analog, retired)
    ∷ (14, ignore, 8166845674 * analog, retired)
    ∷ (15, ecosystem, 6062296 * analog, retired)
    ∷ (16, airdrop, 1336147462613682971, retired)
    ∷ (17, initiatives, 1100010 * analog, retired)
    ∷ (18, ecosystem, 3636364 * analog, retired)
    ∷ (19, initiatives, 60386473 * analog, retired)
    ∷ (20, ecosystem, 116163163 * analog, retired)
    ∷ (21, team, 45289855 * analog, retired)
    ∷ (22, ecosystem, 49081886536 * milli_analog, retired)
    ∷ (23, ecosystem, 22644927500 * milli_analog, retired)
    ∷ (24, initiatives, 249094202500 * milli_analog, retired)
    ∷ (25, initiatives, 362318840 * analog, retired)
    ∷ (26, ecosystem, 14449903350 * milli_analog, retired)
    ∷ (27, initiatives, 45289855 * analog, retired)
    ∷ (28, airdrop, 1097142834936105265, retired)
    ∷ (29, airdrop, 0, retired)
    ∷ (30, ecosystem, 160086 * analog, retired)
    ∷ (31, ecosystem, 2000200 * analog, retired)
    ∷ []
