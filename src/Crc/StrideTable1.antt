-- ===== src/Crc/StrideTable1.antt =====
-- db/crc32c.cpp: kStrideExtensionTable1, entry by entry.
use tiny_leveldb.Prelude.{ℕ, List, [], ◌∷◌}

unfoldable pub k_stride_extension_table_1 : List ℕ
k_stride_extension_table_1 =
    0x00000000 ∷ 0x54075546 ∷ 0xa80eaa8c ∷ 0xfc09ffca ∷ 0x55f123e9 ∷ 0x01f676af ∷ 0xfdff8965
    ∷ 0xa9f8dc23 ∷ 0xabe247d2 ∷ 0xffe51294 ∷ 0x03eced5e ∷ 0x57ebb818 ∷ 0xfe13643b ∷ 0xaa14317d
    ∷ 0x561dceb7 ∷ 0x021a9bf1 ∷ 0x5228f955 ∷ 0x062fac13 ∷ 0xfa2653d9 ∷ 0xae21069f ∷ 0x07d9dabc
    ∷ 0x53de8ffa ∷ 0xafd77030 ∷ 0xfbd02576 ∷ 0xf9cabe87 ∷ 0xadcdebc1 ∷ 0x51c4140b ∷ 0x05c3414d
    ∷ 0xac3b9d6e ∷ 0xf83cc828 ∷ 0x043537e2 ∷ 0x503262a4 ∷ 0xa451f2aa ∷ 0xf056a7ec ∷ 0x0c5f5826
    ∷ 0x58580d60 ∷ 0xf1a0d143 ∷ 0xa5a78405 ∷ 0x59ae7bcf ∷ 0x0da92e89 ∷ 0x0fb3b578 ∷ 0x5bb4e03e
    ∷ 0xa7bd1ff4 ∷ 0xf3ba4ab2 ∷ 0x5a429691 ∷ 0x0e45c3d7 ∷ 0xf24c3c1d ∷ 0xa64b695b ∷ 0xf6790bff
    ∷ 0xa27e5eb9 ∷ 0x5e77a173 ∷ 0x0a70f435 ∷ 0xa3882816 ∷ 0xf78f7d50 ∷ 0x0b86829a ∷ 0x5f81d7dc
    ∷ 0x5d9b4c2d ∷ 0x099c196b ∷ 0xf595e6a1 ∷ 0xa192b3e7 ∷ 0x086a6fc4 ∷ 0x5c6d3a82 ∷ 0xa064c548
    ∷ 0xf463900e ∷ 0x4d4f93a5 ∷ 0x1948c6e3 ∷ 0xe5413929 ∷ 0xb1466c6f ∷ 0x18beb04c ∷ 0x4cb9e50a
    ∷ 0xb0b01ac0 ∷ 0xe4b74f86 ∷ 0xe6add477 ∷ 0xb2aa8131 ∷ 0x4ea37efb ∷ 0x1aa42bbd ∷ 0xb35cf79e
    ∷ 0xe75ba2d8 ∷ 0x1b525d12 ∷ 0x4f550854 ∷ 0x1f676af0 ∷ 0x4b603fb6 ∷ 0xb769c07c ∷ 0xe36e953a
    ∷ 0x4a964919 ∷ 0x1e911c5f ∷ 0xe298e395 ∷ 0xb69fb6d3 ∷ 0xb4852d22 ∷ 0xe0827864 ∷ 0x1c8b87ae
    ∷ 0x488cd2e8 ∷ 0xe1740ecb ∷ 0xb5735b8d ∷ 0x497aa447 ∷ 0x1d7df101 ∷ 0xe91e610f ∷ 0xbd193449
    ∷ 0x4110cb83 ∷ 0x15179ec5 ∷ 0xbcef42e6 ∷ 0xe8e817a0 ∷ 0x14e1e86a ∷ 0x40e6bd2c ∷ 0x42fc26dd
    ∷ 0x16fb739b ∷ 0xeaf28c51 ∷ 0xbef5d917 ∷ 0x170d0534 ∷ 0x430a5072 ∷ 0xbf03afb8 ∷ 0xeb04fafe
    ∷ 0xbb36985a ∷ 0xef31cd1c ∷ 0x133832d6 ∷ 0x473f6790 ∷ 0xeec7bbb3 ∷ 0xbac0eef5 ∷ 0x46c9113f
    ∷ 0x12ce4479 ∷ 0x10d4df88 ∷ 0x44d38ace ∷ 0xb8da7504 ∷ 0xecdd2042 ∷ 0x4525fc61 ∷ 0x1122a927
    ∷ 0xed2b56ed ∷ 0xb92c03ab ∷ 0x9a9f274a ∷ 0xce98720c ∷ 0x32918dc6 ∷ 0x6696d880 ∷ 0xcf6e04a3
    ∷ 0x9b6951e5 ∷ 0x6760ae2f ∷ 0x3367fb69 ∷ 0x317d6098 ∷ 0x657a35de ∷ 0x9973ca14 ∷ 0xcd749f52
    ∷ 0x648c4371 ∷ 0x308b1637 ∷ 0xcc82e9fd ∷ 0x9885bcbb ∷ 0xc8b7de1f ∷ 0x9cb08b59 ∷ 0x60b97493
    ∷ 0x34be21d5 ∷ 0x9d46fdf6 ∷ 0xc941a8b0 ∷ 0x3548577a ∷ 0x614f023c ∷ 0x635599cd ∷ 0x3752cc8b
    ∷ 0xcb5b3341 ∷ 0x9f5c6607 ∷ 0x36a4ba24 ∷ 0x62a3ef62 ∷ 0x9eaa10a8 ∷ 0xcaad45ee ∷ 0x3eced5e0
    ∷ 0x6ac980a6 ∷ 0x96c07f6c ∷ 0xc2c72a2a ∷ 0x6b3ff609 ∷ 0x3f38a34f ∷ 0xc3315c85 ∷ 0x973609c3
    ∷ 0x952c9232 ∷ 0xc12bc774 ∷ 0x3d2238be ∷ 0x69256df8 ∷ 0xc0ddb1db ∷ 0x94dae49d ∷ 0x68d31b57
    ∷ 0x3cd44e11 ∷ 0x6ce62cb5 ∷ 0x38e179f3 ∷ 0xc4e88639 ∷ 0x90efd37f ∷ 0x39170f5c ∷ 0x6d105a1a
    ∷ 0x9119a5d0 ∷ 0xc51ef096 ∷ 0xc7046b67 ∷ 0x93033e21 ∷ 0x6f0ac1eb ∷ 0x3b0d94ad ∷ 0x92f5488e
    ∷ 0xc6f21dc8 ∷ 0x3afbe202 ∷ 0x6efcb744 ∷ 0xd7d0b4ef ∷ 0x83d7e1a9 ∷ 0x7fde1e63 ∷ 0x2bd94b25
    ∷ 0x82219706 ∷ 0xd626c240 ∷ 0x2a2f3d8a ∷ 0x7e2868cc ∷ 0x7c32f33d ∷ 0x2835a67b ∷ 0xd43c59b1
    ∷ 0x803b0cf7 ∷ 0x29c3d0d4 ∷ 0x7dc48592 ∷ 0x81cd7a58 ∷ 0xd5ca2f1e ∷ 0x85f84dba ∷ 0xd1ff18fc
    ∷ 0x2df6e736 ∷ 0x79f1b270 ∷ 0xd0096e53 ∷ 0x840e3b15 ∷ 0x7807c4df ∷ 0x2c009199 ∷ 0x2e1a0a68
    ∷ 0x7a1d5f2e ∷ 0x8614a0e4 ∷ 0xd213f5a2 ∷ 0x7beb2981 ∷ 0x2fec7cc7 ∷ 0xd3e5830d ∷ 0x87e2d64b
    ∷ 0x73814645 ∷ 0x27861303 ∷ 0xdb8fecc9 ∷ 0x8f88b98f ∷ 0x267065ac ∷ 0x727730ea ∷ 0x8e7ecf20
    ∷ 0xda799a66 ∷ 0xd8630197 ∷ 0x8c6454d1 ∷ 0x706dab1b ∷ 0x246afe5d ∷ 0x8d92227e ∷ 0xd9957738
    ∷ 0x259c88f2 ∷ 0x719bddb4 ∷ 0x21a9bf10 ∷ 0x75aeea56 ∷ 0x89a7159c ∷ 0xdda040da ∷ 0x74589cf9
    ∷ 0x205fc9bf ∷ 0xdc563675 ∷ 0x88516333 ∷ 0x8a4bf8c2 ∷ 0xde4cad84 ∷ 0x2245524e ∷ 0x76420708
    ∷ 0xdfbadb2b ∷ 0x8bbd8e6d ∷ 0x77b471a7 ∷ 0x23b324e1 ∷ []
