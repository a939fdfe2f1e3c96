-- ===== src/Core/Constants.antt =====
-- crates/orisyvra-core/src/constants.rs: the initial state and the round constants.
use or_isy_vra.Base.{ℕ, List, [], ◌∷◌}

abbrev pub iv : List ℕ
iv =
    0x49a0_61ae_9c66_8168 ∷ 0x2b99_fc22_1067_7971 ∷ 0x4c11_c3fa_7a15_6089 ∷ 0x11ef_6319_c60a_c91a
    ∷ 0x3e89_e2cb_f054_6d31 ∷ 0x136c_ad03_d220_bb36 ∷ 0x2003_1540_c164_8278 ∷ 0x276f_be30_e486_f7ec
    ∷ 0xdd61_dffb_67ff_9144 ∷ 0xb245_7a11_a441_32be ∷ 0xe894_9238_b181_4b05 ∷ 0x138e_70ba_340a_6986
    ∷ []

abbrev pub rc_a : List ℕ
rc_a =
    0x1853_422e_4732_c6ed ∷ 0xd845_5287_4d2c_4a4d ∷ 0x682a_25cb_2e78_c9fd ∷ 0x9e41_a881_b8f7_397e
    ∷ 0x9326_6e60_3b67_330a ∷ 0x28b0_d2d3_9e46_889d ∷ 0x514f_7bcf_bd79_f938 ∷ 0x2144_bddd_b649_e982
    ∷ 0x3069_f197_a63b_435f ∷ 0x7cf3_370e_57a8_1a4d ∷ 0x34dd_dff2_6d5b_ad1d ∷ 0xfe9a_c5d6_7c20_308e
    ∷ 0x1290_1fb3_b7a2_bace ∷ 0x631c_5129_f70d_f08d ∷ 0x7a91_d014_981f_9f21 ∷ 0x8f0d_8d29_3296_178c
    ∷ 0xf074_cffd_f23e_b10d ∷ 0xb248_ec68_0164_03f4 ∷ []

abbrev pub rc_b : List ℕ
rc_b =
    0x13d4_c46f_19b1_c4bb ∷ 0x1244_e976_6b6c_0e92 ∷ 0xca1f_7d73_9867_358c ∷ 0x3a4f_c6fd_812a_b6e3
    ∷ 0x6a92_b196_8633_9f29 ∷ 0x613b_c163_2616_1de8 ∷ 0xaeb9_1dfc_b0c4_d4fc ∷ 0x98ac_dbb1_563e_8f8f
    ∷ 0x3e55_5cfc_fb45_db74 ∷ 0xcf64_02ae_9650_f7e4 ∷ 0xb93c_472c_eafe_bd32 ∷ 0x9456_427f_77d4_7945
    ∷ 0x4f72_03e9_0e93_ce75 ∷ 0x5c84_5b46_e100_b229 ∷ 0x6667_84d5_a5d3_3db0 ∷ 0xcfc2_46c1_1453_c8f8
    ∷ 0x1b67_f302_66c0_6728 ∷ 0x157d_332d_5aab_69ae ∷ []

abbrev pub rc_c : List ℕ
rc_c =
    0x70b2_dfe5_7b0c_7cc5 ∷ 0xd495_2297_a292_40d5 ∷ 0x5750_9efc_a5f7_f18d ∷ 0xc252_5369_a0d0_653d
    ∷ 0x3ce5_8721_1057_8eb9 ∷ 0xef8b_52c0_7f3b_7fa8 ∷ 0xcd80_cf4f_1815_118d ∷ 0x111b_5ddd_b8e3_7e1c
    ∷ 0x675b_5bd9_d193_6d68 ∷ 0x1619_e844_6754_79db ∷ 0x5c6f_0535_558d_3c83 ∷ 0xb204_824f_129d_8eda
    ∷ 0x025a_9eed_ce6e_832c ∷ 0x0bbb_1f15_f4bc_8cc8 ∷ 0xef6a_fc7d_0e42_2f1e ∷ 0x36cf_6e7e_e9c4_e0ce
    ∷ 0xa7a9_98e4_32c1_7646 ∷ 0x1682_a490_7b2f_1e4f ∷ []
