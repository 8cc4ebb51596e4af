-- ===== src/Mime/Table8.antt =====
-- src/mime.rs: the entries of `MIME_TYPE_BY_EXTENSION` from "torrent" to "webm".
use anweb.Prelude.{List, [], ◌∷◌, codes, Bytes}

abbrev pub types_8 : List (Bytes × Bytes)
types_8 =
    (codes "torrent", codes "application/x-bittorrent")
    ∷ (codes "tpl", codes "application/vnd.groove-tool-template")
    ∷ (codes "tpt", codes "application/vnd.trid.tpt")
    ∷ (codes "tr", codes "application/x-troff")
    ∷ (codes "tra", codes "application/vnd.trueapp")
    ∷ (codes "trm", codes "application/x-msterminal")
    ∷ (codes "trx", codes "application/xml")
    ∷ (codes "ts", codes "video/vnd.dlna.mpeg-tts")
    ∷ (codes "tsd", codes "application/timestamped-data")
    ∷ (codes "tsv", codes "text/tab-separated-values")
    ∷ (codes "ttc", codes "font/collection")
    ∷ (codes "ttf", codes "application/font-sfnt")
    ∷ (codes "ttl", codes "text/turtle")
    ∷ (codes "tts", codes "video/vnd.dlna.mpeg-tts")
    ∷ (codes "twd", codes "application/vnd.simtech-mindmapper")
    ∷ (codes "twds", codes "application/vnd.simtech-mindmapper")
    ∷ (codes "txd", codes "application/vnd.genomatix.tuxedo")
    ∷ (codes "txf", codes "application/vnd.mobius.txf")
    ∷ (codes "txt", codes "text/plain")
    ∷ (codes "u32", codes "application/octet-stream")
    ∷ (codes "u8dsn", codes "message/global-delivery-status")
    ∷ (codes "u8hdr", codes "message/global-headers")
    ∷ (codes "u8mdn", codes "message/global-disposition-notification")
    ∷ (codes "u8msg", codes "message/global")
    ∷ (codes "udeb", codes "application/x-debian-package")
    ∷ (codes "ufd", codes "application/vnd.ufdl")
    ∷ (codes "ufdl", codes "application/vnd.ufdl")
    ∷ (codes "uls", codes "text/iuls")
    ∷ (codes "ulx", codes "application/x-glulx")
    ∷ (codes "umj", codes "application/vnd.umajin")
    ∷ (codes "unityweb", codes "application/vnd.unity")
    ∷ (codes "uoml", codes "application/vnd.uoml+xml")
    ∷ (codes "uri", codes "text/uri-list")
    ∷ (codes "uris", codes "text/uri-list")
    ∷ (codes "urls", codes "text/uri-list")
    ∷ (codes "user", codes "text/plain")
    ∷ (codes "ustar", codes "application/x-ustar")
    ∷ (codes "utz", codes "application/vnd.uiq.theme")
    ∷ (codes "uu", codes "text/x-uuencode")
    ∷ (codes "uva", codes "audio/vnd.dece.audio")
    ∷ (codes "uvd", codes "application/vnd.dece.data")
    ∷ (codes "uvf", codes "application/vnd.dece.data")
    ∷ (codes "uvg", codes "image/vnd.dece.graphic")
    ∷ (codes "uvh", codes "video/vnd.dece.hd")
    ∷ (codes "uvi", codes "image/vnd.dece.graphic")
    ∷ (codes "uvm", codes "video/vnd.dece.mobile")
    ∷ (codes "uvp", codes "video/vnd.dece.pd")
    ∷ (codes "uvs", codes "video/vnd.dece.sd")
    ∷ (codes "uvt", codes "application/vnd.dece.ttml+xml")
    ∷ (codes "uvu", codes "video/vnd.uvvu.mp4")
    ∷ (codes "uvv", codes "video/vnd.dece.video")
    ∷ (codes "uvva", codes "audio/vnd.dece.audio")
    ∷ (codes "uvvd", codes "application/vnd.dece.data")
    ∷ (codes "uvvf", codes "application/vnd.dece.data")
    ∷ (codes "uvvg", codes "image/vnd.dece.graphic")
    ∷ (codes "uvvh", codes "video/vnd.dece.hd")
    ∷ (codes "uvvi", codes "image/vnd.dece.graphic")
    ∷ (codes "uvvm", codes "video/vnd.dece.mobile")
    ∷ (codes "uvvp", codes "video/vnd.dece.pd")
    ∷ (codes "uvvs", codes "video/vnd.dece.sd")
    ∷ (codes "uvvt", codes "application/vnd.dece.ttml+xml")
    ∷ (codes "uvvu", codes "video/vnd.uvvu.mp4")
    ∷ (codes "uvvv", codes "video/vnd.dece.video")
    ∷ (codes "uvvx", codes "application/vnd.dece.unspecified")
    ∷ (codes "uvvz", codes "application/vnd.dece.zip")
    ∷ (codes "uvx", codes "application/vnd.dece.unspecified")
    ∷ (codes "uvz", codes "application/vnd.dece.zip")
    ∷ (codes "vb", codes "text/plain")
    ∷ (codes "vbdproj", codes "text/plain")
    ∷ (codes "vbk", codes "video/mpeg")
    ∷ (codes "vbox", codes "application/x-virtualbox-vbox")
    ∷ (codes "vbox-extpack", codes "application/x-virtualbox-vbox-extpack")
    ∷ (codes "vbproj", codes "text/plain")
    ∷ (codes "vbs", codes "text/vbscript")
    ∷ (codes "vcard", codes "text/vcard")
    ∷ (codes "vcd", codes "application/x-cdlink")
    ∷ (codes "vcf", codes "text/x-vcard")
    ∷ (codes "vcg", codes "application/vnd.groove-vcard")
    ∷ (codes "vcproj", codes "application/xml")
    ∷ (codes "vcs", codes "text/plain")
    ∷ (codes "vcx", codes "application/vnd.vcx")
    ∷ (codes "vcxproj", codes "application/xml")
    ∷ (codes "vddproj", codes "text/plain")
    ∷ (codes "vdi", codes "application/x-virtualbox-vdi")
    ∷ (codes "vdp", codes "text/plain")
    ∷ (codes "vdproj", codes "text/plain")
    ∷ (codes "vdx", codes "application/vnd.ms-visio.viewer")
    ∷ (codes "vhd", codes "application/x-virtualbox-vhd")
    ∷ (codes "vis", codes "application/vnd.visionary")
    ∷ (codes "viv", codes "video/vnd.vivo")
    ∷ (codes "vmdk", codes "application/x-virtualbox-vmdk")
    ∷ (codes "vml", codes "text/xml")
    ∷ (codes "vob", codes "video/x-ms-vob")
    ∷ (codes "vor", codes "application/vnd.stardivision.writer")
    ∷ (codes "vox", codes "application/x-authorware-bin")
    ∷ (codes "vrml", codes "model/vrml")
    ∷ (codes "vscontent", codes "application/xml")
    ∷ (codes "vsct", codes "text/xml")
    ∷ (codes "vsd", codes "application/vnd.visio")
    ∷ (codes "vsf", codes "application/vnd.vsf")
    ∷ (codes "vsi", codes "application/ms-vsi")
    ∷ (codes "vsix", codes "application/vsix")
    ∷ (codes "vsixlangpack", codes "text/xml")
    ∷ (codes "vsixmanifest", codes "text/xml")
    ∷ (codes "vsmdi", codes "application/xml")
    ∷ (codes "vspscc", codes "text/plain")
    ∷ (codes "vss", codes "application/vnd.visio")
    ∷ (codes "vsscc", codes "text/plain")
    ∷ (codes "vssettings", codes "text/xml")
    ∷ (codes "vssscc", codes "text/plain")
    ∷ (codes "vst", codes "application/vnd.visio")
    ∷ (codes "vstemplate", codes "text/xml")
    ∷ (codes "vsto", codes "application/x-ms-vsto")
    ∷ (codes "vsw", codes "application/vnd.visio")
    ∷ (codes "vsx", codes "application/vnd.visio")
    ∷ (codes "vtt", codes "text/vtt")
    ∷ (codes "vtu", codes "model/vnd.vtu")
    ∷ (codes "vtx", codes "application/vnd.visio")
    ∷ (codes "vxml", codes "application/voicexml+xml")
    ∷ (codes "w3d", codes "application/x-director")
    ∷ (codes "wad", codes "application/x-doom")
    ∷ (codes "wadl", codes "application/vnd.sun.wadl+xml")
    ∷ (codes "war", codes "application/java-archive")
    ∷ (codes "wasm", codes "application/wasm")
    ∷ (codes "wav", codes "audio/wav")
    ∷ (codes "wave", codes "audio/wav")
    ∷ (codes "wax", codes "audio/x-ms-wax")
    ∷ (codes "wbk", codes "application/msword")
    ∷ (codes "wbmp", codes "image/vnd.wap.wbmp")
    ∷ (codes "wbs", codes "application/vnd.criticaltools.wbs+xml")
    ∷ (codes "wbxml", codes "application/vnd.wap.wbxml")
    ∷ (codes "wcm", codes "application/vnd.ms-works")
    ∷ (codes "wdb", codes "application/vnd.ms-works")
    ∷ (codes "wdp", codes "image/vnd.ms-photo")
    ∷ (codes "weba", codes "audio/webm")
    ∷ (codes "webapp", codes "application/x-web-app-manifest+json")
    ∷ (codes "webarchive", codes "application/x-safari-webarchive")
    ∷ (codes "webm", codes "video/webm")
    ∷ []
