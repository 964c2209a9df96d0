-- ===== src/Crc/StrideTable2.antt =====
-- db/crc32c.cpp: kStrideExtensionTable2, entry by entry.
use tiny_leveldb.Prelude.{ℕ, List, [], ◌∷◌}

unfoldable pub k_stride_extension_table_2 : List ℕ
k_stride_extension_table_2 =
    0x00000000 ∷ 0x678efd01 ∷ 0xcf1dfa02 ∷ 0xa8930703 ∷ 0x9bd782f5 ∷ 0xfc597ff4 ∷ 0x54ca78f7
    ∷ 0x334485f6 ∷ 0x3243731b ∷ 0x55cd8e1a ∷ 0xfd5e8919 ∷ 0x9ad07418 ∷ 0xa994f1ee ∷ 0xce1a0cef
    ∷ 0x66890bec ∷ 0x0107f6ed ∷ 0x6486e636 ∷ 0x03081b37 ∷ 0xab9b1c34 ∷ 0xcc15e135 ∷ 0xff5164c3
    ∷ 0x98df99c2 ∷ 0x304c9ec1 ∷ 0x57c263c0 ∷ 0x56c5952d ∷ 0x314b682c ∷ 0x99d86f2f ∷ 0xfe56922e
    ∷ 0xcd1217d8 ∷ 0xaa9cead9 ∷ 0x020fedda ∷ 0x658110db ∷ 0xc90dcc6c ∷ 0xae83316d ∷ 0x0610366e
    ∷ 0x619ecb6f ∷ 0x52da4e99 ∷ 0x3554b398 ∷ 0x9dc7b49b ∷ 0xfa49499a ∷ 0xfb4ebf77 ∷ 0x9cc04276
    ∷ 0x34534575 ∷ 0x53ddb874 ∷ 0x60993d82 ∷ 0x0717c083 ∷ 0xaf84c780 ∷ 0xc80a3a81 ∷ 0xad8b2a5a
    ∷ 0xca05d75b ∷ 0x6296d058 ∷ 0x05182d59 ∷ 0x365ca8af ∷ 0x51d255ae ∷ 0xf94152ad ∷ 0x9ecfafac
    ∷ 0x9fc85941 ∷ 0xf846a440 ∷ 0x50d5a343 ∷ 0x375b5e42 ∷ 0x041fdbb4 ∷ 0x639126b5 ∷ 0xcb0221b6
    ∷ 0xac8cdcb7 ∷ 0x97f7ee29 ∷ 0xf0791328 ∷ 0x58ea142b ∷ 0x3f64e92a ∷ 0x0c206cdc ∷ 0x6bae91dd
    ∷ 0xc33d96de ∷ 0xa4b36bdf ∷ 0xa5b49d32 ∷ 0xc23a6033 ∷ 0x6aa96730 ∷ 0x0d279a31 ∷ 0x3e631fc7
    ∷ 0x59ede2c6 ∷ 0xf17ee5c5 ∷ 0x96f018c4 ∷ 0xf371081f ∷ 0x94fff51e ∷ 0x3c6cf21d ∷ 0x5be20f1c
    ∷ 0x68a68aea ∷ 0x0f2877eb ∷ 0xa7bb70e8 ∷ 0xc0358de9 ∷ 0xc1327b04 ∷ 0xa6bc8605 ∷ 0x0e2f8106
    ∷ 0x69a17c07 ∷ 0x5ae5f9f1 ∷ 0x3d6b04f0 ∷ 0x95f803f3 ∷ 0xf276fef2 ∷ 0x5efa2245 ∷ 0x3974df44
    ∷ 0x91e7d847 ∷ 0xf6692546 ∷ 0xc52da0b0 ∷ 0xa2a35db1 ∷ 0x0a305ab2 ∷ 0x6dbea7b3 ∷ 0x6cb9515e
    ∷ 0x0b37ac5f ∷ 0xa3a4ab5c ∷ 0xc42a565d ∷ 0xf76ed3ab ∷ 0x90e02eaa ∷ 0x387329a9 ∷ 0x5ffdd4a8
    ∷ 0x3a7cc473 ∷ 0x5df23972 ∷ 0xf5613e71 ∷ 0x92efc370 ∷ 0xa1ab4686 ∷ 0xc625bb87 ∷ 0x6eb6bc84
    ∷ 0x09384185 ∷ 0x083fb768 ∷ 0x6fb14a69 ∷ 0xc7224d6a ∷ 0xa0acb06b ∷ 0x93e8359d ∷ 0xf466c89c
    ∷ 0x5cf5cf9f ∷ 0x3b7b329e ∷ 0x2a03aaa3 ∷ 0x4d8d57a2 ∷ 0xe51e50a1 ∷ 0x8290ada0 ∷ 0xb1d42856
    ∷ 0xd65ad557 ∷ 0x7ec9d254 ∷ 0x19472f55 ∷ 0x1840d9b8 ∷ 0x7fce24b9 ∷ 0xd75d23ba ∷ 0xb0d3debb
    ∷ 0x83975b4d ∷ 0xe419a64c ∷ 0x4c8aa14f ∷ 0x2b045c4e ∷ 0x4e854c95 ∷ 0x290bb194 ∷ 0x8198b697
    ∷ 0xe6164b96 ∷ 0xd552ce60 ∷ 0xb2dc3361 ∷ 0x1a4f3462 ∷ 0x7dc1c963 ∷ 0x7cc63f8e ∷ 0x1b48c28f
    ∷ 0xb3dbc58c ∷ 0xd455388d ∷ 0xe711bd7b ∷ 0x809f407a ∷ 0x280c4779 ∷ 0x4f82ba78 ∷ 0xe30e66cf
    ∷ 0x84809bce ∷ 0x2c139ccd ∷ 0x4b9d61cc ∷ 0x78d9e43a ∷ 0x1f57193b ∷ 0xb7c41e38 ∷ 0xd04ae339
    ∷ 0xd14d15d4 ∷ 0xb6c3e8d5 ∷ 0x1e50efd6 ∷ 0x79de12d7 ∷ 0x4a9a9721 ∷ 0x2d146a20 ∷ 0x85876d23
    ∷ 0xe2099022 ∷ 0x878880f9 ∷ 0xe0067df8 ∷ 0x48957afb ∷ 0x2f1b87fa ∷ 0x1c5f020c ∷ 0x7bd1ff0d
    ∷ 0xd342f80e ∷ 0xb4cc050f ∷ 0xb5cbf3e2 ∷ 0xd2450ee3 ∷ 0x7ad609e0 ∷ 0x1d58f4e1 ∷ 0x2e1c7117
    ∷ 0x49928c16 ∷ 0xe1018b15 ∷ 0x868f7614 ∷ 0xbdf4448a ∷ 0xda7ab98b ∷ 0x72e9be88 ∷ 0x15674389
    ∷ 0x2623c67f ∷ 0x41ad3b7e ∷ 0xe93e3c7d ∷ 0x8eb0c17c ∷ 0x8fb73791 ∷ 0xe839ca90 ∷ 0x40aacd93
    ∷ 0x27243092 ∷ 0x1460b564 ∷ 0x73ee4865 ∷ 0xdb7d4f66 ∷ 0xbcf3b267 ∷ 0xd972a2bc ∷ 0xbefc5fbd
    ∷ 0x166f58be ∷ 0x71e1a5bf ∷ 0x42a52049 ∷ 0x252bdd48 ∷ 0x8db8da4b ∷ 0xea36274a ∷ 0xeb31d1a7
    ∷ 0x8cbf2ca6 ∷ 0x242c2ba5 ∷ 0x43a2d6a4 ∷ 0x70e65352 ∷ 0x1768ae53 ∷ 0xbffba950 ∷ 0xd8755451
    ∷ 0x74f988e6 ∷ 0x137775e7 ∷ 0xbbe472e4 ∷ 0xdc6a8fe5 ∷ 0xef2e0a13 ∷ 0x88a0f712 ∷ 0x2033f011
    ∷ 0x47bd0d10 ∷ 0x46bafbfd ∷ 0x213406fc ∷ 0x89a701ff ∷ 0xee29fcfe ∷ 0xdd6d7908 ∷ 0xbae38409
    ∷ 0x1270830a ∷ 0x75fe7e0b ∷ 0x107f6ed0 ∷ 0x77f193d1 ∷ 0xdf6294d2 ∷ 0xb8ec69d3 ∷ 0x8ba8ec25
    ∷ 0xec261124 ∷ 0x44b51627 ∷ 0x233beb26 ∷ 0x223c1dcb ∷ 0x45b2e0ca ∷ 0xed21e7c9 ∷ 0x8aaf1ac8
    ∷ 0xb9eb9f3e ∷ 0xde65623f ∷ 0x76f6653c ∷ 0x1178983d ∷ []
