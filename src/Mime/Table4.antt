-- ===== src/Mime/Table4.antt =====
-- src/mime.rs: the entries of `MIME_TYPE_BY_EXTENSION` from "log" to "msty".
use anweb.Prelude.{List, [], ◌∷◌, codes, Bytes}

abbrev pub types_4 : List (Bytes × Bytes)
types_4 =
    (codes "log", codes "text/plain")
    ∷ (codes "lostxml", codes "application/lost+xml")
    ∷ (codes "lpk", codes "application/octet-stream")
    ∷ (codes "lrf", codes "application/octet-stream")
    ∷ (codes "lrm", codes "application/vnd.ms-lrm")
    ∷ (codes "lsf", codes "video/x-la-asf")
    ∷ (codes "lst", codes "text/plain")
    ∷ (codes "lsx", codes "video/x-la-asf")
    ∷ (codes "ltf", codes "application/vnd.frogans.ltf")
    ∷ (codes "lua", codes "text/x-lua")
    ∷ (codes "luac", codes "application/x-lua-bytecode")
    ∷ (codes "lvp", codes "audio/vnd.lucent.voice")
    ∷ (codes "lwp", codes "application/vnd.lotus-wordpro")
    ∷ (codes "lzh", codes "application/octet-stream")
    ∷ (codes "m13", codes "application/x-msmediaview")
    ∷ (codes "m14", codes "application/x-msmediaview")
    ∷ (codes "m1v", codes "video/mpeg")
    ∷ (codes "m21", codes "application/mp21")
    ∷ (codes "m2a", codes "audio/mpeg")
    ∷ (codes "m2t", codes "video/vnd.dlna.mpeg-tts")
    ∷ (codes "m2ts", codes "video/vnd.dlna.mpeg-tts")
    ∷ (codes "m2v", codes "video/mpeg")
    ∷ (codes "m3a", codes "audio/mpeg")
    ∷ (codes "m3u", codes "audio/x-mpegurl")
    ∷ (codes "m3u8", codes "audio/x-mpegurl")
    ∷ (codes "m4a", codes "audio/m4a")
    ∷ (codes "m4b", codes "audio/m4b")
    ∷ (codes "m4p", codes "audio/m4p")
    ∷ (codes "m4r", codes "audio/x-m4r")
    ∷ (codes "m4u", codes "video/vnd.mpegurl")
    ∷ (codes "m4v", codes "video/x-m4v")
    ∷ (codes "ma", codes "application/mathematica")
    ∷ (codes "mac", codes "image/x-macpaint")
    ∷ (codes "mads", codes "application/mads+xml")
    ∷ (codes "mag", codes "application/vnd.ecowin.chart")
    ∷ (codes "mak", codes "text/plain")
    ∷ (codes "maker", codes "application/vnd.framemaker")
    ∷ (codes "man", codes "application/x-troff-man")
    ∷ (codes "manifest", codes "application/x-ms-manifest")
    ∷ (codes "map", codes "text/plain")
    ∷ (codes "mar", codes "application/octet-stream")
    ∷ (codes "markdown", codes "text/markdown")
    ∷ (codes "master", codes "application/xml")
    ∷ (codes "mathml", codes "application/mathml+xml")
    ∷ (codes "mb", codes "application/mathematica")
    ∷ (codes "mbk", codes "application/vnd.mobius.mbk")
    ∷ (codes "mbox", codes "application/mbox")
    ∷ (codes "mc1", codes "application/vnd.medcalcdata")
    ∷ (codes "mcd", codes "application/vnd.mcd")
    ∷ (codes "mcurl", codes "text/vnd.curl.mcurl")
    ∷ (codes "md", codes "text/x-markdown")
    ∷ (codes "mda", codes "application/msaccess")
    ∷ (codes "mdb", codes "application/x-msaccess")
    ∷ (codes "mde", codes "application/msaccess")
    ∷ (codes "mdi", codes "image/vnd.ms-modi")
    ∷ (codes "mdp", codes "application/octet-stream")
    ∷ (codes "me", codes "application/x-troff-me")
    ∷ (codes "mesh", codes "model/mesh")
    ∷ (codes "meta4", codes "application/metalink4+xml")
    ∷ (codes "metalink", codes "application/metalink+xml")
    ∷ (codes "mets", codes "application/mets+xml")
    ∷ (codes "mfm", codes "application/vnd.mfmp")
    ∷ (codes "mfp", codes "application/x-shockwave-flash")
    ∷ (codes "mft", codes "application/rpki-manifest")
    ∷ (codes "mgp", codes "application/vnd.osgeo.mapguide.package")
    ∷ (codes "mgz", codes "application/vnd.proteus.magazine")
    ∷ (codes "mht", codes "message/rfc822")
    ∷ (codes "mhtml", codes "message/rfc822")
    ∷ (codes "mid", codes "audio/mid")
    ∷ (codes "midi", codes "audio/mid")
    ∷ (codes "mie", codes "application/x-mie")
    ∷ (codes "mif", codes "application/vnd.mif")
    ∷ (codes "mime", codes "message/rfc822")
    ∷ (codes "mix", codes "application/octet-stream")
    ∷ (codes "mj2", codes "video/mj2")
    ∷ (codes "mjp2", codes "video/mj2")
    ∷ (codes "mjs", codes "application/javascript")
    ∷ (codes "mk", codes "text/plain")
    ∷ (codes "mk3d", codes "video/x-matroska")
    ∷ (codes "mka", codes "audio/x-matroska")
    ∷ (codes "mkd", codes "text/x-markdown")
    ∷ (codes "mks", codes "video/x-matroska")
    ∷ (codes "mkv", codes "video/x-matroska")
    ∷ (codes "mlp", codes "application/vnd.dolby.mlp")
    ∷ (codes "mmd", codes "application/vnd.chipnuts.karaoke-mmd")
    ∷ (codes "mmf", codes "application/x-smaf")
    ∷ (codes "mml", codes "text/mathml")
    ∷ (codes "mmr", codes "image/vnd.fujixerox.edmics-mmr")
    ∷ (codes "mng", codes "video/x-mng")
    ∷ (codes "mno", codes "text/xml")
    ∷ (codes "mny", codes "application/x-msmoney")
    ∷ (codes "mobi", codes "application/x-mobipocket-ebook")
    ∷ (codes "mod", codes "video/mpeg")
    ∷ (codes "mods", codes "application/mods+xml")
    ∷ (codes "mov", codes "video/quicktime")
    ∷ (codes "movie", codes "video/x-sgi-movie")
    ∷ (codes "mp2", codes "video/mpeg")
    ∷ (codes "mp21", codes "application/mp21")
    ∷ (codes "mp2a", codes "audio/mpeg")
    ∷ (codes "mp2v", codes "video/mpeg")
    ∷ (codes "mp3", codes "audio/mpeg")
    ∷ (codes "mp4", codes "video/mp4")
    ∷ (codes "mp4a", codes "audio/mp4")
    ∷ (codes "mp4s", codes "application/mp4")
    ∷ (codes "mp4v", codes "video/mp4")
    ∷ (codes "mpa", codes "video/mpeg")
    ∷ (codes "mpc", codes "application/vnd.mophun.certificate")
    ∷ (codes "mpd", codes "application/dash+xml")
    ∷ (codes "mpe", codes "video/mpeg")
    ∷ (codes "mpeg", codes "video/mpeg")
    ∷ (codes "mpf", codes "application/vnd.ms-mediapackage")
    ∷ (codes "mpg", codes "video/mpeg")
    ∷ (codes "mpg4", codes "video/mp4")
    ∷ (codes "mpga", codes "audio/mpeg")
    ∷ (codes "mpkg", codes "application/vnd.apple.installer+xml")
    ∷ (codes "mpm", codes "application/vnd.blueice.multipass")
    ∷ (codes "mpn", codes "application/vnd.mophun.application")
    ∷ (codes "mpp", codes "application/vnd.ms-project")
    ∷ (codes "mpt", codes "application/vnd.ms-project")
    ∷ (codes "mpv2", codes "video/mpeg")
    ∷ (codes "mpy", codes "application/vnd.ibm.minipay")
    ∷ (codes "mqv", codes "video/quicktime")
    ∷ (codes "mqy", codes "application/vnd.mobius.mqy")
    ∷ (codes "mrc", codes "application/marc")
    ∷ (codes "mrcx", codes "application/marcxml+xml")
    ∷ (codes "ms", codes "application/x-troff-ms")
    ∷ (codes "mscml", codes "application/mediaservercontrol+xml")
    ∷ (codes "mseed", codes "application/vnd.fdsn.mseed")
    ∷ (codes "mseq", codes "application/vnd.mseq")
    ∷ (codes "msf", codes "application/vnd.epson.msf")
    ∷ (codes "msg", codes "application/vnd.ms-outlook")
    ∷ (codes "msh", codes "model/mesh")
    ∷ (codes "msi", codes "application/octet-stream")
    ∷ (codes "msl", codes "application/vnd.mobius.msl")
    ∷ (codes "msm", codes "application/octet-stream")
    ∷ (codes "mso", codes "application/octet-stream")
    ∷ (codes "msp", codes "application/octet-stream")
    ∷ (codes "msty", codes "application/vnd.muvee.style")
    ∷ []
