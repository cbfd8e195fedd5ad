-- ===== src/Ixgbe/Flags.antt =====
-- The bits and fields of the registers and of the descriptors (send/ixgbe.h, recv/ixgbe.h).
use ixgbe82599_driver.Base.{ℕ}

abbrev pub dmatxctl_te : ℕ
dmatxctl_te = 0x00000001

abbrev pub rttdcs_arbdis : ℕ
rttdcs_arbdis = 0x00000040

abbrev pub rdrxctl_crcstrip : ℕ
rdrxctl_crcstrip = 0x00000002

abbrev pub rdrxctl_dmaidone : ℕ
rdrxctl_dmaidone = 0x00000008

abbrev pub ctrl_lnk_rst : ℕ
ctrl_lnk_rst = 0x00000008

abbrev pub ctrl_rst : ℕ
ctrl_rst = 0x04000000

abbrev pub ctrl_rst_mask : ℕ
ctrl_rst_mask = 0x04000008

abbrev pub ctrl_ext_ns_dis : ℕ
ctrl_ext_ns_dis = 0x00010000

abbrev pub txpbsize_40kb : ℕ
txpbsize_40kb = 0x0000a000

abbrev pub rxpbsize_128kb : ℕ
rxpbsize_128kb = 0x00020000

abbrev pub hlreg0_txcrcen : ℕ
hlreg0_txcrcen = 0x00000001

abbrev pub hlreg0_rxcrcstrp : ℕ
hlreg0_rxcrcstrp = 0x00000002

abbrev pub hlreg0_txpaden : ℕ
hlreg0_txpaden = 0x00000400

abbrev pub autoc_an_restart : ℕ
autoc_an_restart = 0x00001000

abbrev pub autoc_lms_10g_serial : ℕ
autoc_lms_10g_serial = 0x00006000

abbrev pub autoc_lms_mask : ℕ
autoc_lms_mask = 0x0000e000

abbrev pub autoc_10g_pma_pmd_mask : ℕ
autoc_10g_pma_pmd_mask = 0x00000180

abbrev pub autoc_10g_xaui : ℕ
autoc_10g_xaui = 0x00000000

abbrev pub links_up : ℕ
links_up = 0x40000000

abbrev pub links_speed_82599 : ℕ
links_speed_82599 = 0x30000000

abbrev pub links_speed_10g_82599 : ℕ
links_speed_10g_82599 = 0x30000000

abbrev pub links_speed_1g_82599 : ℕ
links_speed_1g_82599 = 0x20000000

abbrev pub links_speed_100_82599 : ℕ
links_speed_100_82599 = 0x10000000

abbrev pub eec_ard : ℕ
eec_ard = 0x00000200

abbrev pub txdctl_enable : ℕ
txdctl_enable = 0x02000000

abbrev pub rxctrl_rxen : ℕ
rxctrl_rxen = 0x00000001

abbrev pub rxdctl_enable : ℕ
rxdctl_enable = 0x02000000

abbrev pub fctrl_mpe : ℕ
fctrl_mpe = 0x00000100

abbrev pub fctrl_upe : ℕ
fctrl_upe = 0x00000200

abbrev pub fctrl_bam : ℕ
fctrl_bam = 0x00000400

abbrev pub rxdadv_stat_dd : ℕ
rxdadv_stat_dd = 0x00000001

abbrev pub rxdadv_stat_eop : ℕ
rxdadv_stat_eop = 0x00000002

abbrev pub srrctl_drop_en : ℕ
srrctl_drop_en = 0x10000000

abbrev pub srrctl_desctype_adv_onebuf : ℕ
srrctl_desctype_adv_onebuf = 0x02000000

abbrev pub srrctl_desctype_mask : ℕ
srrctl_desctype_mask = 0x0e000000

abbrev pub advtxd_dtyp_data : ℕ
advtxd_dtyp_data = 0x00300000

abbrev pub advtxd_dcmd_eop : ℕ
advtxd_dcmd_eop = 0x01000000

abbrev pub advtxd_dcmd_ifcs : ℕ
advtxd_dcmd_ifcs = 0x02000000

abbrev pub advtxd_dcmd_rs : ℕ
advtxd_dcmd_rs = 0x08000000

abbrev pub advtxd_dcmd_dext : ℕ
advtxd_dcmd_dext = 0x20000000

abbrev pub advtxd_stat_dd : ℕ
advtxd_stat_dd = 0x00000001

abbrev pub advtxd_paylen_shift : ℕ
advtxd_paylen_shift = 14
