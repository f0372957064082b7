-- ===== src/Device/Routes.antt =====
-- The multicast routing tables that `initIO` of the two versions of communication.c sets up.
use spi_nnaker.Prelude.{ℕ, ◌+◌, ◌*◌, ◌^◌, bit_or, List, [], ◌∷◌, ◌==◌, if◌then◌else◌}
use spi_nnaker.Device.{Effect, set_mc_entry, motors_key, evds1_enable, mgmt_bit}

abbrev pub east : ℕ
east = 0x1

abbrev pub n_east : ℕ
n_east = 0x2

abbrev pub north : ℕ
north = 0x4

abbrev pub west : ℕ
west = 0x8

abbrev pub s_west : ℕ
s_west = 0x10

abbrev pub south : ℕ
south = 0x20

-- `CORE(n)`
abbrev pub core : ℕ → ℕ
core n = 1 * 2 ^ (n + 6)

-- `a | b | c ...`, grouped to the left as in C
abbrev pub any_of : ℕ → List ℕ → ℕ
any_of a [] = a
any_of a (b ∷ bs) = any_of (bit_or a b) bs

abbrev pub master_chip_nodes : List ℕ
master_chip_nodes =
    core 3
    ∷ core 4
    ∷ core 5
    ∷ core 6
    ∷ core 7
    ∷ core 8
    ∷ core 9
    ∷ core 10
    ∷ core 11
    ∷ core 12
    ∷ core 13
    ∷ core 14
    ∷ core 15
    ∷ []

-- `ALL_NODES_MASTER_CHIP`
abbrev pub all_nodes_master_chip : ℕ
all_nodes_master_chip = any_of (core 2) master_chip_nodes

-- `ALL_NODES_NO_MASTER_CHIP`
abbrev pub all_nodes_no_master_chip : ℕ
all_nodes_no_master_chip = any_of (core 1) (core 2 ∷ master_chip_nodes)

-- `MASTER_CORE`
abbrev pub master_core : ℕ
master_core = core 1

abbrev pub error_msg : ℕ
error_msg = 0xa000_0000

abbrev pub upd_msg : ℕ
upd_msg = 0x4000_0000

-- `initIO` of the sequential version.
unfoldable pub init_io : List Effect
init_io =
    set_mc_entry 0x2 motors_key 0xffff_0000 east
    ∷ set_mc_entry 0x1 (bit_or evds1_enable mgmt_bit) 0xffff_ffff east
    ∷ set_mc_entry 0x4 0x41 0xffff_ffff west
    ∷ set_mc_entry 0x3 0x0 0x0 (core 1)
    ∷ []

-- `initIO` of the parallel version, for each chip of the board.
unfoldable pub init_chip_io : ℕ → List Effect
init_chip_io chip_id =
    if chip_id == 0
    then set_mc_entry 0x2 motors_key 0xffff_0000 east
      ∷ set_mc_entry 0x1 (bit_or evds1_enable mgmt_bit) 0xffff_ffff east
      ∷ set_mc_entry 0x4 0x41 0xffff_ffff west
      ∷ set_mc_entry 0x6 error_msg 0xf000_0000
          (bit_or (bit_or (bit_or north n_east) east) all_nodes_master_chip)
      ∷ set_mc_entry 0x7 upd_msg 0xc000_0000 master_core
      ∷ set_mc_entry 0x20 0x0 0x0 master_core
      ∷ []
    else if chip_id == 1
    then set_mc_entry 0x6 error_msg 0xf000_0000 all_nodes_no_master_chip
      ∷ set_mc_entry 0x7 upd_msg 0xc000_0000 south
      ∷ []
    else if chip_id == 256
    then set_mc_entry 0x6 error_msg 0xf000_0000 all_nodes_no_master_chip
      ∷ set_mc_entry 0x7 upd_msg 0xc000_0000 west
      ∷ []
    else if chip_id == 257
    then set_mc_entry 0x6 error_msg 0xf000_0000 all_nodes_no_master_chip
      ∷ set_mc_entry 0x7 upd_msg 0xc000_0000 s_west
      ∷ []
    else []
