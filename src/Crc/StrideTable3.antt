-- ===== src/Crc/StrideTable3.antt =====
-- db/crc32c.cpp: kStrideExtensionTable3, entry by entry.
use tiny_leveldb.Prelude.{ℕ, List, [], ◌∷◌}

unfoldable pub k_stride_extension_table_3 : List ℕ
k_stride_extension_table_3 =
    0x00000000 ∷ 0xf20c0dfe ∷ 0xe1f46d0d ∷ 0x13f860f3 ∷ 0xc604aceb ∷ 0x3408a115 ∷ 0x27f0c1e6
    ∷ 0xd5fccc18 ∷ 0x89e52f27 ∷ 0x7be922d9 ∷ 0x6811422a ∷ 0x9a1d4fd4 ∷ 0x4fe183cc ∷ 0xbded8e32
    ∷ 0xae15eec1 ∷ 0x5c19e33f ∷ 0x162628bf ∷ 0xe42a2541 ∷ 0xf7d245b2 ∷ 0x05de484c ∷ 0xd0228454
    ∷ 0x222e89aa ∷ 0x31d6e959 ∷ 0xc3dae4a7 ∷ 0x9fc30798 ∷ 0x6dcf0a66 ∷ 0x7e376a95 ∷ 0x8c3b676b
    ∷ 0x59c7ab73 ∷ 0xabcba68d ∷ 0xb833c67e ∷ 0x4a3fcb80 ∷ 0x2c4c517e ∷ 0xde405c80 ∷ 0xcdb83c73
    ∷ 0x3fb4318d ∷ 0xea48fd95 ∷ 0x1844f06b ∷ 0x0bbc9098 ∷ 0xf9b09d66 ∷ 0xa5a97e59 ∷ 0x57a573a7
    ∷ 0x445d1354 ∷ 0xb6511eaa ∷ 0x63add2b2 ∷ 0x91a1df4c ∷ 0x8259bfbf ∷ 0x7055b241 ∷ 0x3a6a79c1
    ∷ 0xc866743f ∷ 0xdb9e14cc ∷ 0x29921932 ∷ 0xfc6ed52a ∷ 0x0e62d8d4 ∷ 0x1d9ab827 ∷ 0xef96b5d9
    ∷ 0xb38f56e6 ∷ 0x41835b18 ∷ 0x527b3beb ∷ 0xa0773615 ∷ 0x758bfa0d ∷ 0x8787f7f3 ∷ 0x947f9700
    ∷ 0x66739afe ∷ 0x5898a2fc ∷ 0xaa94af02 ∷ 0xb96ccff1 ∷ 0x4b60c20f ∷ 0x9e9c0e17 ∷ 0x6c9003e9
    ∷ 0x7f68631a ∷ 0x8d646ee4 ∷ 0xd17d8ddb ∷ 0x23718025 ∷ 0x3089e0d6 ∷ 0xc285ed28 ∷ 0x17792130
    ∷ 0xe5752cce ∷ 0xf68d4c3d ∷ 0x048141c3 ∷ 0x4ebe8a43 ∷ 0xbcb287bd ∷ 0xaf4ae74e ∷ 0x5d46eab0
    ∷ 0x88ba26a8 ∷ 0x7ab62b56 ∷ 0x694e4ba5 ∷ 0x9b42465b ∷ 0xc75ba564 ∷ 0x3557a89a ∷ 0x26afc869
    ∷ 0xd4a3c597 ∷ 0x015f098f ∷ 0xf3530471 ∷ 0xe0ab6482 ∷ 0x12a7697c ∷ 0x74d4f382 ∷ 0x86d8fe7c
    ∷ 0x95209e8f ∷ 0x672c9371 ∷ 0xb2d05f69 ∷ 0x40dc5297 ∷ 0x53243264 ∷ 0xa1283f9a ∷ 0xfd31dca5
    ∷ 0x0f3dd15b ∷ 0x1cc5b1a8 ∷ 0xeec9bc56 ∷ 0x3b35704e ∷ 0xc9397db0 ∷ 0xdac11d43 ∷ 0x28cd10bd
    ∷ 0x62f2db3d ∷ 0x90fed6c3 ∷ 0x8306b630 ∷ 0x710abbce ∷ 0xa4f677d6 ∷ 0x56fa7a28 ∷ 0x45021adb
    ∷ 0xb70e1725 ∷ 0xeb17f41a ∷ 0x191bf9e4 ∷ 0x0ae39917 ∷ 0xf8ef94e9 ∷ 0x2d1358f1 ∷ 0xdf1f550f
    ∷ 0xcce735fc ∷ 0x3eeb3802 ∷ 0xb13145f8 ∷ 0x433d4806 ∷ 0x50c528f5 ∷ 0xa2c9250b ∷ 0x7735e913
    ∷ 0x8539e4ed ∷ 0x96c1841e ∷ 0x64cd89e0 ∷ 0x38d46adf ∷ 0xcad86721 ∷ 0xd92007d2 ∷ 0x2b2c0a2c
    ∷ 0xfed0c634 ∷ 0x0cdccbca ∷ 0x1f24ab39 ∷ 0xed28a6c7 ∷ 0xa7176d47 ∷ 0x551b60b9 ∷ 0x46e3004a
    ∷ 0xb4ef0db4 ∷ 0x6113c1ac ∷ 0x931fcc52 ∷ 0x80e7aca1 ∷ 0x72eba15f ∷ 0x2ef24260 ∷ 0xdcfe4f9e
    ∷ 0xcf062f6d ∷ 0x3d0a2293 ∷ 0xe8f6ee8b ∷ 0x1afae375 ∷ 0x09028386 ∷ 0xfb0e8e78 ∷ 0x9d7d1486
    ∷ 0x6f711978 ∷ 0x7c89798b ∷ 0x8e857475 ∷ 0x5b79b86d ∷ 0xa975b593 ∷ 0xba8dd560 ∷ 0x4881d89e
    ∷ 0x14983ba1 ∷ 0xe694365f ∷ 0xf56c56ac ∷ 0x07605b52 ∷ 0xd29c974a ∷ 0x20909ab4 ∷ 0x3368fa47
    ∷ 0xc164f7b9 ∷ 0x8b5b3c39 ∷ 0x795731c7 ∷ 0x6aaf5134 ∷ 0x98a35cca ∷ 0x4d5f90d2 ∷ 0xbf539d2c
    ∷ 0xacabfddf ∷ 0x5ea7f021 ∷ 0x02be131e ∷ 0xf0b21ee0 ∷ 0xe34a7e13 ∷ 0x114673ed ∷ 0xc4babff5
    ∷ 0x36b6b20b ∷ 0x254ed2f8 ∷ 0xd742df06 ∷ 0xe9a9e704 ∷ 0x1ba5eafa ∷ 0x085d8a09 ∷ 0xfa5187f7
    ∷ 0x2fad4bef ∷ 0xdda14611 ∷ 0xce5926e2 ∷ 0x3c552b1c ∷ 0x604cc823 ∷ 0x9240c5dd ∷ 0x81b8a52e
    ∷ 0x73b4a8d0 ∷ 0xa64864c8 ∷ 0x54446936 ∷ 0x47bc09c5 ∷ 0xb5b0043b ∷ 0xff8fcfbb ∷ 0x0d83c245
    ∷ 0x1e7ba2b6 ∷ 0xec77af48 ∷ 0x398b6350 ∷ 0xcb876eae ∷ 0xd87f0e5d ∷ 0x2a7303a3 ∷ 0x766ae09c
    ∷ 0x8466ed62 ∷ 0x979e8d91 ∷ 0x6592806f ∷ 0xb06e4c77 ∷ 0x42624189 ∷ 0x519a217a ∷ 0xa3962c84
    ∷ 0xc5e5b67a ∷ 0x37e9bb84 ∷ 0x2411db77 ∷ 0xd61dd689 ∷ 0x03e11a91 ∷ 0xf1ed176f ∷ 0xe215779c
    ∷ 0x10197a62 ∷ 0x4c00995d ∷ 0xbe0c94a3 ∷ 0xadf4f450 ∷ 0x5ff8f9ae ∷ 0x8a0435b6 ∷ 0x78083848
    ∷ 0x6bf058bb ∷ 0x99fc5545 ∷ 0xd3c39ec5 ∷ 0x21cf933b ∷ 0x3237f3c8 ∷ 0xc03bfe36 ∷ 0x15c7322e
    ∷ 0xe7cb3fd0 ∷ 0xf4335f23 ∷ 0x063f52dd ∷ 0x5a26b1e2 ∷ 0xa82abc1c ∷ 0xbbd2dcef ∷ 0x49ded111
    ∷ 0x9c221d09 ∷ 0x6e2e10f7 ∷ 0x7dd67004 ∷ 0x8fda7dfa ∷ []
